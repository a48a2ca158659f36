-- ===== src/Wf/Params/Determinism.antt =====
-- The combinations do not depend on the order in which the map is iterated.
use mathlib.Core.List.{Permᴰ}
use mathlib.Core.List.Permᴰ as PermD
use altair_rs.Prelude.{List, ◌≡◌}
use altair_rs.Prelude.Text.{String}
use altair_rs.Prelude.Order.{text_order}
use altair_rs.Prelude.Order.Sorted.{sort_by_key-perm, is_empty-perm}
use altair_rs.Prelude.StringMap.{HasDistinctEntries, HasDistinctKeys-keys, lookup-perm}
use altair_rs.Wf.Params.{values_of, sorted_entries, generate_parameter_combinations}
use mathlib.Core.Path.{fun_ext}

sorted_entries-perm :
    {p q : List (String × List String)}
    → Permᴰ p q
    → HasDistinctEntries p
    → sorted_entries p ≡ sorted_entries q
unfolding sorted_entries
sorted_entries-perm {p = m} {q = n} p d = rw (
  sort_by_key-perm (λ k. k) (PermD.map (λ e. e.0) p) (HasDistinctKeys-keys m d),
  fun_ext (λ k. same_values k),
)
  where
    same_values :
        (k : String) → ◌≡◌ {A = String × List String} (k, values_of m k) (k, values_of n k)
    same_values k = unfold values_of in rw (lookup-perm k p d, values_of)

-- Two maps with the same entries, each key once, give the same combinations in the same order.
pub generate_parameter_combinations-perm :
    {p q : List (String × List String)}
    → Permᴰ p q
    → HasDistinctEntries p
    → generate_parameter_combinations p ≡ generate_parameter_combinations q
unfolding generate_parameter_combinations
generate_parameter_combinations-perm p d = rw (is_empty-perm p, sorted_entries-perm p d)
