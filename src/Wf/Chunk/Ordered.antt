-- ===== src/Wf/Chunk/Ordered.antt =====
-- crates/altair-wf/src/datasync/chunk/sync.rs: what the filter by the
-- cursor keeps of partitions in increasing order.
use mathlib.Core.Path.{subst}
use mathlib.Core.List.{append_assoc}
use altair_rs.Prelude.{
  ◌≡◌, refl, ap, inl, inr, true, false, Option, none, some, List, [], ◌∷◌, ◌++◌, Bool-cases,
}
use altair_rs.Prelude.Order.{TotalOrder}
use altair_rs.Wf.Chunk.{Partition, retain_from, filtered}

module _ {K : Type 0} ⦃order : TotalOrder K⦄ where
  -- A partition that is not empty, as `Partition::try_new` makes it.
  abbrev pub IsRange : Partition K → Type 0
  IsRange p = order.le p.end p.start ≡ false

  -- From `bound` on, ranges that do not overlap, in increasing order.
  abbrev pub IsOrderedFrom : K → List (Partition K) → Type 0
  IsOrderedFrom bound [] = Unit {0}
  IsOrderedFrom bound (p ∷ ps) =
      (order.le bound p.start ≡ true) × IsRange p × IsOrderedFrom p.end ps

  -- The partitions of a list in increasing order.
  abbrev pub IsOrdered : List (Partition K) → Type 0
  IsOrdered [] = Unit {0}
  IsOrdered (p ∷ ps) = IsRange p × IsOrderedFrom p.end ps

  -- The last end, or `k` for no partition.
  abbrev pub last_end : K → List (Partition K) → K
  last_end k [] = k
  last_end k (p ∷ ps) = last_end p.end ps

  le_refl : (k : K) → order.le k k ≡ true
  le_refl k = elim (order.total k k) [ inl a ↦ a | inr b ↦ b ]

  range-le : (p : Partition K) → IsRange p → order.le p.start p.end ≡ true
  range-le p h = elim (order.total p.start p.end) [ inl a ↦ a | inr b ↦ cc ]

  -- Ranges from a bound on are all kept.
  keeps_later :
      (c bound : K) (ps : List (Partition K))
      → order.le c bound ≡ true
      → IsOrderedFrom bound ps
      → retain_from c ps ≡ ps
  unfolding retain_from
  keeps_later c bound [] h ordered = refl
  keeps_later c bound (p ∷ ps) h (start_ok, range, ordered) =
      let from_start : order.le c p.start ≡ true = order.trans c bound p.start h start_ok in
      rw (
        from_start,
        keeps_later c p.end ps (order.trans c p.start p.end from_start (range-le p range)) ordered,
      )

  end-le-last_end :
      (k : K) (ps : List (Partition K)) → IsOrderedFrom k ps → order.le k (last_end k ps) ≡ true
  end-le-last_end k [] h = le_refl k
  end-le-last_end k (p ∷ ps) (start_ok, range, ordered) =
      order.trans k p.start (last_end p.end ps) start_ok (
        order.trans p.start p.end (last_end p.end ps) (range-le p range)
          (end-le-last_end p.end ps ordered))

  ordered_prefix :
      (k : K) (ps qs : List (Partition K)) → IsOrderedFrom k (ps ++ qs) → IsOrderedFrom k ps
  ordered_prefix k [] qs h = tt
  ordered_prefix k (p ∷ ps) qs (start_ok, range, ordered) =
      (start_ok, range, ordered_prefix p.end ps qs ordered)

  -- A range that ends at or before the cursor is dropped.
  drops_done :
      (done rest : List (Partition K)) (k : K)
      → IsOrderedFrom k (done ++ rest)
      → retain_from (last_end k done) (done ++ rest) ≡ rest
  unfolding retain_from
  drops_done [] rest k h = keeps_later k k rest (le_refl k) h
  drops_done (p ∷ done) rest k (start_ok, range, ordered) =
      elim (Bool-cases (order.le (last_end p.end done) p.start)) [
        | inl not_after ↦
            let back : order.le p.end p.start ≡ true =
              order.trans p.end (last_end p.end done) p.start
                (end-le-last_end p.end done (ordered_prefix p.end done rest ordered)) not_after in
            cc
        | inr after ↦ rw (after) (drops_done done rest p.end ordered)
      ]

  -- Where the cursor stands at the last end of a part that is not empty, the rest is kept.
  keeps_rest :
      (d : Partition K) (done rest : List (Partition K))
      → IsOrdered (d ∷ (done ++ rest))
      → filtered (some (last_end d.end done)) (d ∷ (done ++ rest)) ≡ rest
  unfolding filtered retain_from
  keeps_rest d done rest (range, ordered) =
      let after : order.le (last_end d.end done) d.start ≡ false =
        elim (Bool-cases (order.le (last_end d.end done) d.start)) [
          | inl not_after ↦
              let back : order.le d.end d.start ≡ true =
                order.trans d.end (last_end d.end done) d.start
                  (end-le-last_end d.end done (ordered_prefix d.end done rest ordered)) not_after in
              cc
          | inr after ↦ after
        ] in
      rw after (drops_done done rest d.end ordered)

  tail-IsOrdered : (p : Partition K) (ps : List (Partition K)) → IsOrdered (p ∷ ps) → IsOrdered ps
  tail-IsOrdered p [] h = tt
  tail-IsOrdered p (q ∷ ps) (range, (start_ok, range_q, ordered)) = (range_q, ordered)

  -- The filter leaves a last part of the list.
  pub filtered-suffix :
      (c : Option K) (ps : List (Partition K))
      → IsOrdered ps
      → (before : List (Partition K)) × (ps ≡ before ++ filtered c ps)
  unfolding filtered retain_from
  filtered-suffix none ps h = ([], refl)
  filtered-suffix (some c) [] h = ([], refl)
  filtered-suffix (some c) (p ∷ ps) h = elim (Bool-cases (order.le c p.start)) [
    | inl kept ↦ (
      [],
      rw (kept, keeps_later c p.end ps (order.trans c p.start p.end kept (range-le p h.0)) h.1),
    )
    | inr dropped ↦
        let (before, e) = filtered-suffix (some c) ps (tail-IsOrdered p ps h) in
        (p ∷ before, rw dropped (ap (λ l. p ∷ l) e))
  ]

  last_end-append :
      (k : K) (before : List (Partition K)) (d : Partition K) (done : List (Partition K))
      → last_end k (before ++ (d ∷ done)) ≡ last_end d.end done
  last_end-append k [] d done = refl
  last_end-append k (b ∷ before) d done = last_end-append b.end before d done

  -- The same after any first part.
  pub keeps_last :
      (before : List (Partition K)) (d : Partition K) (done rest : List (Partition K))
      → IsOrdered (before ++ (d ∷ (done ++ rest)))
      → filtered (some (last_end d.end done)) (before ++ (d ∷ (done ++ rest))) ≡ rest
  keeps_last [] d done rest = keeps_rest d done rest
  keeps_last (b ∷ before) d done rest =
      subst
        (λ k.
          IsOrdered (b ∷ (before ++ (d ∷ (done ++ rest))))
          → filtered (some k) (b ∷ (before ++ (d ∷ (done ++ rest)))) ≡ rest)
        (last_end-append b.end before d done)
        (subst
          (λ l.
            IsOrdered (b ∷ l)
            → filtered (some (last_end b.end (before ++ (d ∷ done)))) (b ∷ l) ≡ rest)
          (append_assoc before (d ∷ done) rest) (keeps_rest b (before ++ (d ∷ done)) rest))
