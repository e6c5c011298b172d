-- ===== src/Prelude/Text/Laws.antt =====
-- Equality and trimming of strings.
use Prim.Native.Nat.{ℕ}
use mathlib.Core.Path.{◌≡◌, refl, ap, ◌∙◌}
use mathlib.Core.Logic.{◌↔◌, inl, inr}
use mathlib.Core.Bool.{true, false}
use mathlib.Core.Option.{Option, none, some}
use mathlib.Core.List.{[], ◌∷◌}
use native.Mathlib.Omega.{arith}
use xautojs_devspace.Prelude.Tests.{Bool-cases}
use xautojs_devspace.Prelude.Lists.{All}
use xautojs_devspace.Prelude.Text.{
  Text, text_eq, option_text_eq, is_white, trim_start, keep_unless_last, trim_end, trim,
}

pub eq_of_text_eq : (s t : Text) → text_eq s t ≡ true → s ≡ t
unfolding text_eq
eq_of_text_eq [] [] h = refl
eq_of_text_eq [] (b ∷ t) h = cc
eq_of_text_eq (a ∷ s) [] h = cc
eq_of_text_eq (a ∷ s) (b ∷ t) h = ground (arith, eq_of_text_eq s t)

pub text_eq_refl : (s : Text) → text_eq s s ≡ true
unfolding text_eq
text_eq_refl [] = refl
text_eq_refl (a ∷ s) = ground (arith, text_eq_refl s)

pub text_eq_iff : (s t : Text) → (text_eq s t ≡ true) ↔ (s ≡ t)
text_eq_iff s t = (eq_of_text_eq s t, λ e. rw e (text_eq_refl t))

pub option_text_eq_iff : (o p : Option Text) → (option_text_eq o p ≡ true) ↔ (o ≡ p)
unfolding option_text_eq
option_text_eq_iff none none = ground arith
option_text_eq_iff none (some b) = ground arith
option_text_eq_iff (some a) none = ground arith
option_text_eq_iff (some a) (some b) = ground (arith, text_eq_iff a b)

-- The first code unit is no blank.
abbrev pub IsStarted : Text → Type 0
IsStarted [] = Unit
IsStarted (c ∷ _) = is_white c ≡ false

trim_start-IsStarted : (s : Text) → IsStarted (trim_start s)
unfolding trim_start
trim_start-IsStarted [] = tt
trim_start-IsStarted (c ∷ s) = ground (arith, trim_start-IsStarted s)

trim_start_of_IsStarted : (s : Text) → IsStarted s → trim_start s ≡ s
unfolding trim_start
trim_start_of_IsStarted [] h = refl
trim_start_of_IsStarted (c ∷ s) h = rw h

keep_unless_last-IsStarted :
    (c : ℕ) (s : Text) → is_white c ≡ false → IsStarted (keep_unless_last c s)
unfolding keep_unless_last
keep_unless_last-IsStarted c [] h = rw h h
keep_unless_last-IsStarted c (d ∷ s) h = h

trim_end-IsStarted : (s : Text) → IsStarted s → IsStarted (trim_end s)
unfolding trim_end
trim_end-IsStarted [] h = tt
trim_end-IsStarted (c ∷ s) h = keep_unless_last-IsStarted c (trim_end s) h

trim_end-keep_unless_last :
    (c : ℕ) (s : Text) → trim_end s ≡ s → trim_end (keep_unless_last c s) ≡ keep_unless_last c s
unfolding keep_unless_last trim_end
trim_end-keep_unless_last c [] h = elim (Bool-cases (is_white c)) [
  | inl e ↦ rw e
  | inr e ↦ rw (e, e)
]
trim_end-keep_unless_last c (d ∷ s) h = rw h

trim_end-trim_end : (s : Text) → trim_end (trim_end s) ≡ trim_end s
unfolding trim_end
trim_end-trim_end [] = refl
trim_end-trim_end (c ∷ s) = trim_end-keep_unless_last c (trim_end s) (trim_end-trim_end s)

-- A trimmed string is not changed by trimming.
pub trim-trim : (s : Text) → trim (trim s) ≡ trim s
unfolding trim
trim-trim s =
    ap trim_end (
      trim_start_of_IsStarted (trim_end (trim_start s))
        (trim_end-IsStarted (trim_start s) (trim_start-IsStarted s)))
    ∙ trim_end-trim_end (trim_start s)

-- Text that begins and ends with no blank is not changed.
pub trim-IsStarted : (s : Text) → IsStarted (trim s)
unfolding trim
trim-IsStarted s = trim_end-IsStarted (trim_start s) (trim_start-IsStarted s)

All-trim_start : (P : ℕ → Type 0) (s : Text) → All P s → All P (trim_start s)
unfolding trim_start
All-trim_start P [] h = tt
All-trim_start P (c ∷ s) h = ground (arith, All-trim_start P s h.1)

All-keep_unless_last :
    (P : ℕ → Type 0) (c : ℕ) (s : Text) → P c → All P s → All P (keep_unless_last c s)
unfolding keep_unless_last
All-keep_unless_last P c [] h k = ground arith
All-keep_unless_last P c (d ∷ s) h k = (h, k)

All-trim_end : (P : ℕ → Type 0) (s : Text) → All P s → All P (trim_end s)
unfolding trim_end
All-trim_end P [] h = tt
All-trim_end P (c ∷ s) h = All-keep_unless_last P c (trim_end s) h.0 (All-trim_end P s h.1)

-- Trimming brings no code unit in.
pub All-trim : (P : ℕ → Type 0) (s : Text) → All P s → All P (trim s)
unfolding trim
All-trim P s h = All-trim_end P (trim_start s) (All-trim_start P s h)
