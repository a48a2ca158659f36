-- ===== src/Wf/Params/Sorted.antt =====
-- The sorted entries of a map, crates/altair-wf/src/helpers.rs: the entries, in the order of the keys.
use mathlib.Core.List.{Permᴰ}
use mathlib.Core.List.Permᴰ as PermD
use mathlib.Core.Path.{subst}
use altair_rs.Prelude.{
  List, [], ◌∷◌, map, ◌≡◌, refl, ap, ap₂, ◌∙◌, ◌≢◌, All, Bool-cases, inl, inr, true, none, some,
}
use altair_rs.Prelude.Text.{String, str_eq, eq_iff, eq_refl, text_leb}
use altair_rs.Prelude.Order.{text_order, HasDistinctKeys, IsSortedByKey}
use altair_rs.Prelude.Order.Sorted.{
  HasDistinctKeys-perm, perm-sort_by_key, sort_by_key-IsSortedByKey,
}
use altair_rs.Prelude.StringMap.{keys, lookup, HasDistinctEntries, HasDistinctKeys-keys}
use altair_rs.Wf.Params.{values_of, sorted_entries}

-- The entries of a map in the order of `sorted_entries`, with no key twice.
pub sorted_entries-HasDistinctEntries :
    (params : List (String × List String))
    → HasDistinctEntries params
    → HasDistinctEntries (sorted_entries params)
unfolding sorted_entries
sorted_entries-HasDistinctEntries params d = entries_distinct _ (
    HasDistinctKeys-perm (λ k. k) (perm-sort_by_key (λ k. k) (keys params))
      (HasDistinctKeys-keys params d))
  where
    ne_all :
        (k : String) (ks : List String)
        → All (λ j. k ≢ j) ks
        → All (λ (e : String × List String). k ≢ e.0) (map (λ j. (j, values_of params j)) ks)
    ne_all k [] h = tt
    ne_all k (j ∷ ks) (h, hs) = (h, ne_all k ks hs)

    entries_distinct :
        (ks : List String)
        → HasDistinctKeys (λ k. k) ks
        → HasDistinctEntries (map (λ k. (k, values_of params k)) ks)
    entries_distinct [] h = tt
    entries_distinct (k ∷ ks) (h, hs) = (ne_all k ks h, entries_distinct ks hs)

-- The values of a key that is none of the first entry.
values_of-tail :
    (p e : String × List String) (m : List (String × List String))
    → p.0 ≢ e.0
    → values_of (p ∷ m) e.0 ≡ values_of m e.0
unfolding values_of lookup
values_of-tail p e m apart = ap (λ found. elim found [ none ↦ [] | some vs ↦ vs ]) passed
  where
    passed : lookup e.0 (p ∷ m) ≡ lookup e.0 m
    passed = elim (Bool-cases (str_eq p.0 e.0)) [
      | inl same ↦ absurd (apart ((eq_iff p.0 e.0).0 same))
      | inr other ↦ rw other refl
    ]

values_of-head :
    (p : String × List String) (m : List (String × List String)) → values_of (p ∷ m) p.0 ≡ p.1
unfolding values_of lookup
values_of-head p m =
    let found : lookup p.0 (p ∷ m) ≡ some p.1 = rw (eq_refl p.0) refl in
    ap (λ found. elim found [ none ↦ [] | some vs ↦ vs ]) found

-- Each entry of a map has the values of its key.
all_values_of :
    (m : List (String × List String)) → HasDistinctEntries m → All (λ e. values_of m e.0 ≡ e.1) m
all_values_of [] d = tt
all_values_of (p ∷ m) (d, ds) = (values_of-head p m, later m d (all_values_of m ds))
  where
    later :
        (es : List (String × List String))
        → All (λ e. p.0 ≢ e.0) es
        → All (λ e. values_of m e.0 ≡ e.1) es
        → All (λ e. values_of (p ∷ m) e.0 ≡ e.1) es
    later [] h k = tt
    later (e ∷ es) (h, hs) (k, ks) = (values_of-tail p e m h ∙ k, later es hs ks)

map-keys :
    (m es : List (String × List String))
    → All (λ e. values_of m e.0 ≡ e.1) es
    → map (λ k. (k, values_of m k)) (keys es) ≡ es
map-keys m [] h = refl
map-keys m ((k, vs) ∷ es) (h, hs) = ap₂ ◌∷◌ (ap (λ l. (k, l)) h) (map-keys m es hs)

pub perm-sorted_entries :
    (params : List (String × List String))
    → HasDistinctEntries params
    → Permᴰ params (sorted_entries params)
unfolding sorted_entries
perm-sorted_entries params d =
    subst (λ l. Permᴰ l (sorted_entries params)) (map-keys params params (all_values_of params d))
      (PermD.map (λ k. (k, values_of params k)) (perm-sort_by_key (λ k. k) (keys params)))

pub sorted_entries-IsSortedByKey :
    (params : List (String × List String)) → IsSortedByKey (λ e. e.0) (sorted_entries params)
unfolding sorted_entries
sorted_entries-IsSortedByKey params =
    entries_sorted _ (sort_by_key-IsSortedByKey (λ k. k) (keys params))
  where
    le_all :
        (k : String) (ks : List String)
        → All (λ j. text_leb k j ≡ true) ks
        → All
            (λ (e : String × List String). text_leb k e.0 ≡ true)
            (map (λ j. (j, values_of params j)) ks)
    le_all k [] h = tt
    le_all k (j ∷ ks) (h, hs) = (h, le_all k ks hs)

    entries_sorted :
        (ks : List String)
        → IsSortedByKey (λ k. k) ks
        → IsSortedByKey (λ (e : String × List String). e.0) (map (λ k. (k, values_of params k)) ks)
    entries_sorted [] h = tt
    entries_sorted (k ∷ ks) (h, hs) = (le_all k ks h, entries_sorted ks hs)
