-- ===== src/DeviceAuth/Unique.antt =====
-- The user code of a new authorization: `uniqueUserCode` of src/cloud-device-code-auth.ts.
use xautojs_devspace.DeviceAuth.{AuthorizationRecord, Authorizations, Host, get_by_user_code}
use xautojs_devspace.DeviceAuth.Create.{
  exhausted_error, format_user_code, unique_user_code, unique_user_code_in,
}
use xautojs_devspace.Prelude.{
  All, In, List, Option-cases, [], arith, inl, inr, length, none, refl, some, suc, zero, ℕ, ◌∷◌,
  ◌≡◌, ◌⊎◌,
}
use xautojs_devspace.Prelude.Result.{err, ok}
use xautojs_devspace.Prelude.Text.{Text}

module _ (host : Host) (s : Authorizations) where
  -- A code that a seed gives and that no record has.
  abbrev pub IsFresh : Text → Text → Type 0
  IsFresh seed code = (code ≡ format_user_code host seed) × (get_by_user_code host code s ≡ none)

  -- The record that has the code of the seed.
  abbrev pub IsTaken : Text → Type 0
  IsTaken seed =
      (existing : AuthorizationRecord) × (get_by_user_code host (format_user_code host seed) s
        ≡ some existing)

  rounds_lem :
      (rounds : ℕ) (seeds : List Text)
      → length seeds ≡ rounds
      → ((code : Text) × (seed : Text) × In seed seeds
          × IsFresh seed code
          × (unique_user_code_in host rounds seeds s ≡ ok code))
        ⊎ (All IsTaken seeds × (unique_user_code_in host rounds seeds s ≡ err exhausted_error))
  unfolding unique_user_code_in
  rounds_lem zero [] e = inr (tt, refl)
  rounds_lem zero (seed ∷ seeds) e = absurd (ground arith)
  rounds_lem (suc rounds) [] e = absurd (ground arith)
  rounds_lem (suc rounds) (seed ∷ seeds) e =
      elim (Option-cases (get_by_user_code host (format_user_code host seed) s)) [
        | inl free ↦ inl (
          format_user_code host seed,
          seed,
          inl refl,
          (refl, free),
          rw (unique_user_code_in, free) refl,
        )
        | inr (existing, taken) ↦ elim (rounds_lem rounds seeds (omega (arith, e))) [
          | inl (code, later, member, fresh, found) ↦
              inl (code, later, inr member, fresh, rw (unique_user_code_in, taken) found)
          | inr (all_taken, exhausted) ↦
              inr (((existing, taken), all_taken), rw (unique_user_code_in, taken) exhausted)
        ]
      ]

  -- The twenty rounds end, with a code that one of the twenty seeds gives and no record has, or, where
  -- each of the twenty codes is taken, with the error.
  pub unique_user_code_lem :
      (seeds : List Text)
      → length seeds ≡ 20
      → ((code : Text) × (seed : Text) × In seed seeds
          × IsFresh seed code
          × (unique_user_code host seeds s ≡ ok code))
        ⊎ (All IsTaken seeds × (unique_user_code host seeds s ≡ err exhausted_error))
  unfolding unique_user_code
  unique_user_code_lem seeds e = rounds_lem 20 seeds e
