-- ===== src/Wf/Params/Product.antt =====
-- The combinations are the cartesian product of the values, in lexicographic order of the keys.
use mathlib.Core.List.{Permᴰ, tail, append-nil, append_assoc, map-append}
use mathlib.Core.Path.{ap₂}
use altair_rs.Prelude.{
  ℕ, ◌*◌, List, [], ◌∷◌, ◌++◌, map, length, length-map, length-append, All-append, ◌≡◌, refl, ◌∙◌,
  sym, ap, ◌≢◌, All, arith,
}
use altair_rs.Prelude.Text.{String, eq_iff}
use altair_rs.Prelude.Order.{text_order, IsSortedByKey}
use altair_rs.Prelude.StringMap.{insert, HasDistinctEntries}
use altair_rs.Wf.Params.Sorted.{
  sorted_entries-HasDistinctEntries, perm-sorted_entries, sorted_entries-IsSortedByKey,
}
use altair_rs.Wf.Params.{
  StringMap, fill_values, fill, sorted_entries, generate_parameter_combinations,
}

-- The product by plain recursion: the first key varies slowest.
abbrev pub with_values : String → List String → List StringMap → List StringMap
with_values k [] rest = []
with_values k (v ∷ vs) rest = map (λ c. (k, v) ∷ c) rest ++ with_values k vs rest

abbrev pub product : List (String × List String) → List StringMap
product [] = [] ∷ []
product ((k, vs) ∷ rest) = with_values k vs (product rest)

-- What is left in `current` from earlier rounds: bindings of the first of the keys still to come.
abbrev IsStale : StringMap → List (String × List String) → Type 0
IsStale [] rest = Unit
IsStale (p ∷ stale) [] = ⊥
IsStale (p ∷ stale) (e ∷ rest) = (p.0 ≡ e.0) × IsStale stale rest

abbrev Absent : String → StringMap → Type 0
Absent k = All (λ p. p.0 ≢ k)

insert-append :
    (k v : String) (pre stale : StringMap)
    → Absent k pre
    → insert k v (pre ++ stale) ≡ pre ++ insert k v stale
unfolding insert
insert-append k v [] stale h = refl
insert-append k v ((j, w) ∷ pre) stale (h, hs) =
    ground (arith, eq_iff j k, insert-append k v pre stale hs)

insert_stale :
    (k v : String) (vs : List String) (rest : List (String × List String)) (pre stale : StringMap)
    → Absent k pre
    → IsStale stale ((k, vs) ∷ rest)
    → insert k v (pre ++ stale) ≡ (pre ++ ((k, v) ∷ [])) ++ tail stale
insert_stale k v vs rest pre stale h s =
    insert-append k v pre stale h
    ∙ rest_of stale s
    ∙ sym (append_assoc pre ((k, v) ∷ []) (tail stale))
  where
    rest_of :
        (s : StringMap)
        → IsStale s ((k, vs) ∷ rest)
        → pre ++ insert k v s ≡ pre ++ ((k, v) ∷ tail s)
    rest_of [] h = unfold insert in refl
    rest_of ((j, w) ∷ s) (e, _) = unfold insert in ground (arith, eq_iff j k)

tail-IsStale :
    (e : String × List String) (rest : List (String × List String)) (stale : StringMap)
    → IsStale stale (e ∷ rest)
    → IsStale (tail stale) rest
tail-IsStale e rest [] h = tt
tail-IsStale e rest (p ∷ stale) h = h.1

Absent-snoc :
    (k v : String) (pre : StringMap) (rest : List (String × List String))
    → All (λ e. k ≢ e.0) rest
    → All (λ e. Absent e.0 pre) rest
    → All (λ e. Absent e.0 (pre ++ ((k, v) ∷ []))) rest
Absent-snoc k v pre [] d h = tt
Absent-snoc k v pre (e ∷ rest) (d, ds) (h, hs) =
    (All-append (λ p. p.0 ≢ e.0) pre ((k, v) ∷ []) h (d, tt), Absent-snoc k v pre rest ds hs)

-- What `fill` does from a given depth on, for the bindings `pre` made so far.
abbrev Fills : List (String × List String) → Type 0
Fills entries =
    (pre stale : StringMap) (out : List StringMap)
    → All (λ e. Absent e.0 pre) entries
    → IsStale stale entries
    → (stale' : StringMap) × IsStale stale' entries
      × (fill entries (pre ++ stale) out
          ≡ (pre ++ stale', out ++ map (λ c. pre ++ c) (product entries)))

map_snoc :
    (k v : String) (pre : StringMap) (cs : List StringMap)
    → map (λ c. (pre ++ ((k, v) ∷ [])) ++ c) cs ≡ map (λ c. pre ++ c) (map (λ c. (k, v) ∷ c) cs)
map_snoc k v pre [] = refl
map_snoc k v pre (c ∷ cs) = ap₂ ◌∷◌ (append_assoc pre ((k, v) ∷ []) c) (map_snoc k v pre cs)

fill_values_lem :
    (k : String) (all vs : List String) (rest : List (String × List String))
    → All (λ e. k ≢ e.0) rest
    → Fills rest
    → (pre stale : StringMap) (out : List StringMap) → All (λ e. Absent e.0 pre) ((k, all) ∷ rest)
    → IsStale stale ((k, all) ∷ rest)
    → (stale' : StringMap) × IsStale stale' ((k, all) ∷ rest)
      × (fill_values k vs (fill rest) (pre ++ stale) out
          ≡ (pre ++ stale', out ++ map (λ c. pre ++ c) (with_values k vs (product rest))))
unfolding fill_values
fill_values_lem k all [] rest d f pre stale out h s = (stale, s, rw append-nil)
fill_values_lem k all (v ∷ vs) rest d f pre stale out h s =
    let (s1, i1, e1) =
      f (pre ++ ((k, v) ∷ [])) (tail stale) out (Absent-snoc k v pre rest d h.1)
        (tail-IsStale (k, all) rest stale s) in
    let (s2, i2, e2) =
      fill_values_lem k all vs rest d f pre ((k, v) ∷ s1)
        (out ++ map (λ c. (pre ++ ((k, v) ∷ [])) ++ c) (product rest)) h (refl, i1) in
    (
      s2,
      i2,
      rw (insert_stale k v all rest pre stale h.0 s, e1, append_assoc pre ((k, v) ∷ []) s1, e2)
          (rw (map_snoc k v pre (product rest), map-append, append_assoc)),
    )

fill_lem : (entries : List (String × List String)) → HasDistinctEntries entries → Fills entries
unfolding fill
fill_lem [] d pre [] out h s = ([], tt, rw append-nil)
fill_lem [] d pre (p ∷ stale) out h s = elim s [ ]
fill_lem ((k, vs) ∷ rest) (d, ds) pre stale out h s =
    fill_values_lem k vs vs rest d (fill_lem rest ds) pre stale out h s

-- `product` in two parts: it has the size of the product of the values' counts.
abbrev pub product_size : List (String × List String) → ℕ
product_size [] = 1
product_size ((k, vs) ∷ rest) = length vs * product_size rest

length-with_values :
    (k : String) (vs : List String) (rest : List StringMap)
    → length (with_values k vs rest) ≡ length vs * length rest
length-with_values k [] rest = omega arith
length-with_values k (v ∷ vs) rest =
    length-append (map (λ c. (k, v) ∷ c) rest) (with_values k vs rest)
    ∙ omega (arith, length-map (λ (c : StringMap). (k, v) ∷ c) rest, length-with_values k vs rest)

length-product :
    (entries : List (String × List String)) → length (product entries) ≡ product_size entries
length-product [] = refl
length-product ((k, vs) ∷ rest) =
    length-with_values k vs (product rest) ∙ ap (λ (n : ℕ). length vs * n) (length-product rest)

no_bindings : (entries : List (String × List String)) → All (λ e. Absent e.0 []) entries
no_bindings [] = tt
no_bindings (e ∷ entries) = (tt, no_bindings entries)

map_nil_append : (cs : List StringMap) → map (λ c. [] ++ c) cs ≡ cs
map_nil_append [] = refl
map_nil_append (c ∷ cs) = ap (λ l. c ∷ l) (map_nil_append cs)

fill-product :
    (entries : List (String × List String))
    → HasDistinctEntries entries
    → (fill entries [] []).1 ≡ product entries
fill-product entries d =
    let (_, _, e) = fill_lem entries d [] [] [] (no_bindings entries) tt in
    ap (λ r. r.1) e ∙ map_nil_append (product entries)

-- For a map that is not empty, the combinations are the cartesian product of its entries, each of
-- them once and in the order of the keys, and their number is the product of the numbers of values.
pub generate_parameter_combinations-product :
    (params : List (String × List String))
    → HasDistinctEntries params
    → params ≢ []
    → (entries : List (String × List String)) × Permᴰ params entries
      × IsSortedByKey (λ e. e.0) entries
      × (generate_parameter_combinations params ≡ product entries)
      × (length (generate_parameter_combinations params) ≡ product_size entries)
unfolding generate_parameter_combinations
generate_parameter_combinations-product [] d h = absurd (h refl)
generate_parameter_combinations-product (p ∷ params) d h =
    let same = fill-product _ (sorted_entries-HasDistinctEntries (p ∷ params) d) in
    (
      sorted_entries (p ∷ params),
      perm-sorted_entries (p ∷ params) d,
      sorted_entries-IsSortedByKey (p ∷ params),
      same,
      ap length same ∙ length-product (sorted_entries (p ∷ params)),
    )
