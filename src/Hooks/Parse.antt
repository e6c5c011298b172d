-- ===== src/Hooks/Parse.antt =====
-- The functions of src/native-agent-hook-config.ts that read a value of one kind. One that throws
-- gives the error's message.
use xautojs_devspace.Prelude.{
  Bool, List, Option, String, [], any, false, if◌then◌else◌, ltb, none, some, suc, true, zero, ℕ,
  ◌%◌, ◌&&◌, ◌++◌, ◌+◌, ◌/◌, ◌∷◌,
}
use xautojs_devspace.Prelude.Json.{
  Json, JsonFields, JsonItems, item, json_array, json_bool, json_null, json_object, json_text,
  no_items,
}
use xautojs_devspace.Prelude.Result.{Result, err, ok, ◌>>=◌}
use xautojs_devspace.Prelude.Text.{Text, text, text_eq, trim, truthy}

abbrev pub Parsed : Type 0 → Type 0
Parsed A = Result Text A

-- A number in decimal, as a template string writes it.
decimal_in : ℕ → ℕ → Text
decimal_in zero n = []
decimal_in (suc fuel) n =
    let rest = decimal_in fuel (n / 10) in
    if ltb n 10 then (48 + n) ∷ [] else rest ++ ((48 + n % 10) ∷ [])

unfoldable pub decimal : ℕ → Text
unfolding decimal_in
decimal n = decimal_in (suc n) n

-- `${source}[${index}]`
unfoldable pub indexed : Text → ℕ → Text
unfolding decimal
indexed source index = source ++ (91 ∷ decimal index ++ (93 ∷ []))

unfoldable pub dotted : Text → String → Text
unfolding text
dotted source name = source ++ (46 ∷ text name)

abbrev pub fail {ℓ} : {A : Type ℓ} → Text → String → Result Text A
fail source complaint = err (source ++ text complaint)

-- `a ?? b`
abbrev pub nullish : Option Json → Option Json → Option Json
nullish none b = b
nullish (some json_null) b = b
nullish (some v) b = some v

abbrev pub is_nullish : Option Json → Bool
is_nullish none = true
is_nullish (some json_null) = true
is_nullish (some _) = false

unfoldable pub object_record : Option Json → Text → Parsed JsonFields
unfolding text
object_record (some (json_object fields)) source = ok fields
object_record _ source = fail source " must be an object."

list_of_items : JsonItems → List Json
list_of_items no_items = []
list_of_items (item v rest) = v ∷ list_of_items rest

unfoldable pub optional_array : Option Json → Text → Parsed (List Json)
unfolding text list_of_items
optional_array none source = ok []
optional_array (some json_null) source = ok []
optional_array (some (json_array items)) source = ok (list_of_items items)
optional_array (some _) source = fail source " must be an array."

unfoldable pub optional_string : Option Json → Text → Parsed (Option Text)
unfolding text trim
optional_string none source = ok none
optional_string (some json_null) source = ok none
optional_string (some (json_text value)) source =
    let trimmed : Text = trim value in ok (if truthy trimmed then some trimmed else none)
optional_string (some _) source = fail source " must be a string."

unfoldable pub required_string : Option Json → Text → Parsed Text
unfolding optional_string text
required_string value source = do
  parsed ← optional_string value source
  elim parsed [ none ↦ fail source " is required." | some s ↦ ok s ]

unfoldable pub optional_boolean : Option Json → Option Bool → Text → Parsed (Option Bool)
unfolding text
optional_boolean none fallback source = ok fallback
optional_boolean (some json_null) fallback source = ok fallback
optional_boolean (some (json_bool b)) fallback source = ok (some b)
optional_boolean (some _) fallback source = fail source " must be a boolean."

join_with : Text → List Text → Text
join_with separator [] = []
join_with separator (x ∷ []) = x
join_with separator (x ∷ y ∷ rest) = x ++ (separator ++ join_with separator (y ∷ rest))

unfoldable pub parse_enum : Option Json → List Text → Text → Parsed Text
unfolding required_string any text_eq text join_with
parse_enum value allowed source = do
  parsed ← required_string value source
  if any (text_eq parsed) allowed
      then ok parsed
      else err (source ++ (text " must be one of: " ++ (join_with (text ", ") allowed ++ text ".")))

-- The entries as strings, trimmed.
trim_entries : List Json → ℕ → Text → Parsed (List Text)
unfolding trim text indexed
trim_entries [] index source = ok []
trim_entries (json_text value ∷ rest) index source = do
  others ← trim_entries rest (suc index) source
  ok (trim value ∷ others)
trim_entries (_ ∷ rest) index source = fail (indexed source index) " must be a string."

keep_truthy : List Text → List Text
keep_truthy [] = []
keep_truthy (x ∷ xs) = let rest = keep_truthy xs in if truthy x then x ∷ rest else rest

-- `Array.from(new Set(entries))`, from the elements seen.
distinct : List Text → List Text → List Text
unfolding any text_eq
distinct seen [] = []
distinct seen (x ∷ xs) = elim (any (text_eq x) seen) [
  | true ↦ distinct seen xs
  | false ↦ x ∷ distinct (x ∷ seen) xs
]

raw_entries : Option Json → List Json
unfolding list_of_items
raw_entries (some (json_array items)) = list_of_items items
raw_entries (some (json_text s)) = json_text s ∷ []
raw_entries _ = []

is_empty : {A : Type 0} → List A → Bool
is_empty [] = true
is_empty (_ ∷ _) = false

unfoldable pub parse_string_array : Option Json → Text → Bool → Parsed (List Text)
unfolding raw_entries is_empty trim_entries keep_truthy distinct text
parse_string_array value source required =
    let raw : List Json = raw_entries value in
    if is_empty raw then (if required then fail source " is required." else ok []) else (do
      trimmed ← trim_entries raw 0 source
      let entries : List Text = keep_truthy trimmed
      if required && is_empty entries
          then fail source " is required."
          else ok (distinct [] entries))

-- The first entry that is not allowed is named.
check_allowed : List Text → List Text → Text → Parsed (Unit {0})
unfolding any text_eq text
check_allowed [] allowed source = ok tt
check_allowed (entry ∷ rest) allowed source =
    let others = check_allowed rest allowed source in
    if any (text_eq entry) allowed
    then others
    else err (source ++ (text " contains invalid value: " ++ (entry ++ text ".")))

unfoldable pub parse_enum_list : Option Json → List Text → Text → Bool → Parsed (List Text)
unfolding parse_string_array check_allowed
parse_enum_list value allowed source required = do
  entries ← parse_string_array value source required
  checked ← check_allowed entries allowed source
  ok entries

unfoldable pub parse_optional_enum_list :
    Option Json → List Text → Text → Parsed (Option (List Text))
unfolding parse_enum_list
parse_optional_enum_list value allowed source =
    if is_nullish value
    then ok none
    else (do entries ← parse_enum_list value allowed source false; ok (some entries))

unfoldable pub parse_optional_string_list : Option Json → Text → Parsed (Option (List Text))
unfolding parse_string_array
parse_optional_string_list value source =
    if is_nullish value
    then ok none
    else (do entries ← parse_string_array value source false; ok (some entries))
