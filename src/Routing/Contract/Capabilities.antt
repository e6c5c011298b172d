-- ===== src/Routing/Contract/Capabilities.antt =====
-- `normalizeCloudRouteCapabilities` of src/cloud-routing-contract.ts: a set, in ascending order.
use xautojs_devspace.Prelude.{Option, none, some, List, [], ◌∷◌, ◌++◌, any, if◌then◌else◌, get_or}
use xautojs_devspace.Prelude.Text.{Text, text_eq, text_le, truthy}
use xautojs_devspace.Prelude.Result.{Result, ok, ◌>>=◌}
use xautojs_devspace.Routing.Contract.{RoutingError, normalize_optional_id}

-- `normalized.add(value)` of a `Set`
unfoldable pub set_add : Text → List Text → List Text
unfolding any text_eq
set_add value set = if any (text_eq value) set then set else set ++ value ∷ []

insert_sorted : Text → List Text → List Text
insert_sorted value [] = value ∷ []
insert_sorted value (x ∷ xs) =
    if text_le value x then value ∷ x ∷ xs else x ∷ insert_sorted value xs

-- `sort()` of strings: by code units
unfoldable pub sort : List Text → List Text
unfolding insert_sorted text_le
sort [] = []
sort (x ∷ xs) = insert_sorted x (sort xs)

-- `if (value) normalized.add(value)`
add_if_truthy : Option Text → List Text → List Text
unfolding set_add
add_if_truthy none set = set
add_if_truthy (some value) set = if truthy value then set_add value set else set

-- The loop over the given capabilities.
collect : List Text → List Text → Result RoutingError (List Text)
unfolding add_if_truthy normalize_optional_id
collect [] set = ok set
collect (capability ∷ rest) set = do
  value ← normalize_optional_id (some capability) "capability"
  collect rest (add_if_truthy value set)

unfoldable pub normalize_capabilities : Option (List Text) → Result RoutingError (List Text)
unfolding collect sort
normalize_capabilities capabilities = do
  normalized ← collect (get_or capabilities []) []
  ok (sort normalized)
