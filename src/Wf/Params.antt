-- ===== src/Wf/Params.antt =====
-- crates/altair-wf/src/helpers.rs: the combinations of the parameters of a loop. A `HashMap` is an
-- association list whose order is that of its iteration, which the map does not promise.
pub mod Product
pub mod Sorted
pub mod Determinism
use altair_rs.Prelude.{Bool, Option, none, some, List, [], ◌∷◌, ◌++◌, map, is_empty, if◌then◌else◌}
use altair_rs.Prelude.Text.{String}
use altair_rs.Prelude.Order.{text_order, sort_by_key}
use altair_rs.Prelude.StringMap.{keys, lookup, insert}

abbrev pub StringMap : Type 0
StringMap = List (String × String)

-- The `for` loop of `fill`, over the recursive call as a function of the two mutable arguments.
unfoldable pub fill_values :
    String
    → List String
    → (StringMap → List StringMap → StringMap × List StringMap)
    → StringMap
    → List StringMap
    → StringMap × List StringMap
unfolding insert
fill_values k [] next current out = (current, out)
fill_values k (v ∷ vs) next current out =
    let (current', out') = next (insert k v current) out in fill_values k vs next current' out'

-- `keys` and `values` from `depth` on, zipped. It returns `current` and `out` as it leaves them.
unfoldable pub fill :
    List (String × List String) → StringMap → List StringMap → StringMap × List StringMap
unfolding fill_values
fill [] current out = (current, out ++ (current ∷ []))
fill ((k, vs) ∷ rest) current out = fill_values k vs (fill rest) current out

-- `&params[k]`, for a key of the map.
unfoldable pub values_of : List (String × List String) → String → List String
unfolding lookup
values_of params k = elim (lookup k params) [ none ↦ [] | some vs ↦ vs ]

-- The sorted keys, each with its values.
unfoldable pub sorted_entries : List (String × List String) → List (String × List String)
unfolding sort_by_key values_of
sorted_entries params = map (λ k. (k, values_of params k)) (sort_by_key (λ k. k) (keys params))

unfoldable pub generate_parameter_combinations : List (String × List String) → List StringMap
unfolding sorted_entries fill
generate_parameter_combinations params =
    if is_empty params then [] else (fill (sorted_entries params) [] []).1
