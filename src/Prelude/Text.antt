-- ===== src/Prelude/Text.antt =====
-- JavaScript strings as lists of UTF-16 code units: literals, `===`, `<=`, `trim` and truthiness.
pub mod Laws
use Prim.Native.Nat.{ℕ, zero, suc}
use Prim.Native.Char.{Char, code}
use Prim.Native.String.{String}
use mathlib.Core.Bool.{Bool, true, false, not, ◌&&◌, ◌||◌}
use mathlib.Core.Option.{Option, none, some}
use mathlib.Core.List.{List, [], ◌∷◌, ◌++◌}
use xautojs_devspace.Prelude.{if◌then◌else◌, leb, ltb, ◌==◌}

abbrev pub Text : Type 0
Text = List ℕ

-- A literal. Its characters lie in the basic plane, where a character is one code unit.
unfoldable pub text : String → Text
text String.[] = []
text (String.◌∷◌ c s) = code c ∷ text s

-- `a === b`
unfoldable pub text_eq : Text → Text → Bool
text_eq [] [] = true
text_eq [] (_ ∷ _) = false
text_eq (_ ∷ _) [] = false
text_eq (a ∷ s) (b ∷ t) = a == b && text_eq s t

-- `a === b` where either may be undefined
unfoldable pub option_text_eq : Option Text → Option Text → Bool
unfolding text_eq
option_text_eq none none = true
option_text_eq none (some _) = false
option_text_eq (some _) none = false
option_text_eq (some a) (some b) = text_eq a b

-- `a <= b`: by code units, a prefix first
unfoldable pub text_le : Text → Text → Bool
text_le [] _ = true
text_le (_ ∷ _) [] = false
text_le (a ∷ s) (b ∷ t) = let rest = text_le s t in if ltb a b then true else a == b && rest

-- The empty string is falsy.
abbrev pub truthy : Text → Bool
truthy [] = false
truthy (_ ∷ _) = true

-- A string or undefined: both undefined and "" are falsy.
abbrev pub option_truthy : Option Text → Bool
option_truthy none = false
option_truthy (some s) = truthy s

-- WhiteSpace and LineTerminator of ECMAScript.
unfoldable pub is_white : ℕ → Bool
is_white c =
    leb 9 c && leb c 13
    || c == 32
    || c == 160
    || c == 5760
    || leb 8192 c && leb c 8202
    || c == 8232
    || c == 8233
    || c == 8239
    || c == 8287
    || c == 12288
    || c == 65279

trim_start : Text → Text
trim_start [] = []
trim_start (c ∷ s) = if is_white c then trim_start s else c ∷ s

-- A blank is dropped if nothing is left behind it.
keep_unless_last : ℕ → Text → Text
keep_unless_last c [] = if is_white c then [] else c ∷ []
keep_unless_last c (d ∷ s) = c ∷ d ∷ s

trim_end : Text → Text
unfolding keep_unless_last
trim_end [] = []
trim_end (c ∷ s) = keep_unless_last c (trim_end s)

-- `s.trim()`
unfoldable pub trim : Text → Text
unfolding trim_start trim_end is_white
trim s = trim_end (trim_start s)

-- `s.startsWith(t)`
unfoldable pub starts_with : Text → Text → Bool
starts_with _ [] = true
starts_with [] (_ ∷ _) = false
starts_with (a ∷ s) (b ∷ t) = a == b && starts_with s t

-- `s.includes(t)`
unfoldable pub includes : Text → Text → Bool
unfolding starts_with
includes [] t = starts_with [] t
includes (a ∷ s) t = starts_with (a ∷ s) t || includes s t

-- `s.slice(n)`
unfoldable pub slice_from : ℕ → Text → Text
slice_from zero s = s
slice_from (suc n) [] = []
slice_from (suc n) (_ ∷ s) = slice_from n s

-- `s.slice(0, n)`
unfoldable pub slice_to : ℕ → Text → Text
slice_to zero s = []
slice_to (suc n) [] = []
slice_to (suc n) (c ∷ s) = c ∷ slice_to n s
