-- ===== src/Prelude/JsMap.antt =====
-- `Map<string, V>`: entries in the order of insertion. `set` on a key that is there keeps its place.
use mathlib.Core.Path.{◌≡◌, refl, subst₂}
use mathlib.Core.Logic.{inl, inr}
use mathlib.Core.Option.{Option, none, some}
use mathlib.Core.List.{List, [], ◌∷◌}
use native.Mathlib.Omega.{arith}
use xautojs_devspace.Prelude.Tests.{if◌then◌else◌, Bool-cases}
use xautojs_devspace.Prelude.Lists.{All}
use xautojs_devspace.Prelude.Text.{Text, text_eq}
use xautojs_devspace.Prelude.Text.Laws.{text_eq_refl, text_eq_iff, eq_of_text_eq}

abbrev pub JsMap : Type 0 → Type 0
JsMap V = List (Text × V)

module _ {V : Type 0} where
  unfoldable pub get : Text → JsMap V → Option V
  get k [] = none
  get k ((j, v) ∷ m) = if text_eq j k then some v else get k m

  unfoldable pub put : Text → V → JsMap V → JsMap V
  put k v [] = (k, v) ∷ []
  put k v ((j, w) ∷ m) = if text_eq j k then (j, v) ∷ m else (j, w) ∷ put k v m

  unfoldable pub delete : Text → JsMap V → JsMap V
  delete k [] = []
  delete k ((j, v) ∷ m) = if text_eq j k then delete k m else (j, v) ∷ delete k m

  unfoldable pub values : JsMap V → List V
  values [] = []
  values ((k, v) ∷ m) = v ∷ values m

  pub get-put :
      (k j : Text) (v : V) (m : JsMap V)
      → get j (put k v m) ≡ (if text_eq k j then some v else get j m)
  unfolding get put
  get-put k j v [] = refl
  get-put k j v ((i, w) ∷ m) =
      ground (arith, text_eq_iff k j, text_eq_iff i k, text_eq_iff i j, get-put k j v m)

  pub get-put_same : (k : Text) (v : V) (m : JsMap V) → get k (put k v m) ≡ some v
  get-put_same k v m = rw (get-put k k v m) (rw (text_eq_refl k) refl)

  pub get-delete :
      (k j : Text) (m : JsMap V) → get j (delete k m) ≡ (if text_eq k j then none else get j m)
  unfolding get delete
  get-delete k j [] = ground arith
  get-delete k j ((i, w) ∷ m) =
      ground (arith, text_eq_iff k j, text_eq_iff i k, text_eq_iff i j, get-delete k j m)

  -- What holds of every key with its value.
  abbrev pub Entries : (Text → V → Type 0) → JsMap V → Type 0
  Entries P m = All (λ e. P e.0 e.1) m

  pub Entries-put :
      (P : Text → V → Type 0) (k : Text) (v : V) (m : JsMap V)
      → P k v
      → Entries P m
      → Entries P (put k v m)
  unfolding put
  Entries-put P k v [] h a = (h, tt)
  Entries-put P k v ((j, w) ∷ m) h a = ground (arith, text_eq_iff j k, Entries-put P k v m h a.1)

  pub Entries-delete :
      (P : Text → V → Type 0) (k : Text) (m : JsMap V) → Entries P m → Entries P (delete k m)
  unfolding delete
  Entries-delete P k [] a = tt
  Entries-delete P k ((j, w) ∷ m) a = ground (arith, Entries-delete P k m a.1)

  pub Entries-get :
      (P : Text → V → Type 0) (k : Text) (m : JsMap V) {v : V}
      → Entries P m
      → get k m ≡ some v
      → P k v
  unfolding get
  Entries-get P k [] a h = cc
  Entries-get P k ((j, w) ∷ m) {v} a h = elim (Bool-cases (text_eq j k)) [
    | inl hit ↦ let same : w ≡ v = ground arith in subst₂ P (eq_of_text_eq j k hit) same a.0
    | inr miss ↦ Entries-get P k m a.1 (ground arith)
  ]
