-- ===== src/Prelude/Json.antt =====
-- Values that `JSON.parse` gives. A number is a natural or another one; a field that is not there, or
-- is undefined, has no entry.
use Prim.Native.Nat.{ℕ}
use mathlib.Core.Bool.{Bool, true, false}
use mathlib.Core.Option.{Option, none, some}
use xautojs_devspace.Prelude.Tests.{if◌then◌else◌}
use xautojs_devspace.Prelude.Text.{Text, text_eq}

mutual
  pub data Json : Type 0 where
    json_null : Json
    json_bool : Bool → Json
    json_natural : ℕ → Json
    json_other_number : Json
    json_text : Text → Json
    json_array : JsonItems → Json
    json_object : JsonFields → Json

  pub data JsonItems : Type 0 where
    no_items : JsonItems
    item : Json → JsonItems → JsonItems

  pub data JsonFields : Type 0 where
    no_fields : JsonFields
    field : Text → Json → JsonFields → JsonFields

unfoldable pub find_field : Text → JsonFields → Option Json
unfolding text_eq
find_field name no_fields = none
find_field name (field k v rest) = if text_eq k name then some v else find_field name rest

-- `value.name`, for a value that is an object or an array: an array has no field of these names.
unfoldable pub get_field : Text → Json → Option Json
unfolding find_field
get_field name (json_object fields) = find_field name fields
get_field name _ = none

-- `typeof value === "object" && value !== null`
abbrev pub is_record : Json → Bool
is_record (json_array _) = true
is_record (json_object _) = true
is_record _ = false

-- `typeof value === "string" ? value : undefined`
abbrev pub as_text : Option Json → Option Text
as_text (some (json_text s)) = some s
as_text _ = none

-- `typeof value === "string"`
abbrev pub is_text : Option Json → Bool
is_text (some (json_text _)) = true
is_text _ = false

-- `value === undefined || typeof value === "string"`
abbrev pub is_optional_text : Option Json → Bool
is_optional_text none = true
is_optional_text o = is_text o

-- A field that is left out where its value is undefined.
unfoldable pub optional_field : Text → Option Text → JsonFields → JsonFields
optional_field name none rest = rest
optional_field name (some s) rest = field name (json_text s) rest
