-- ===== src/Wf/Patterns/Summary.antt =====
-- What the loops over outcomes compute, described without a loop: the failures of a list of outcomes
-- with their positions and reasons, and the counters that follow from them.
use mathlib.Core.List.{append-nil, append_assoc}
use native.Mathlib.Nat.{add-zero, zero-add}
use altair_rs.Prelude.{
  ℕ, zero, suc, ◌+◌, ◌<◌, ◌≡◌, refl, ◌∙◌, ap, Bool, true, false, Option, none, some, List, [], ◌∷◌,
  ◌++◌, map, length, get_elem?, if◌then◌else◌, ◌==◌, Bool-cases, inl, inr, arith,
}
use altair_rs.Prelude.Text.{String, to_string}
use altair_rs.Wf.Error.{pattern_stopped, display, Result, ok, err, ◌>>=◌}
use altair_rs.Wf.Task.{TaskOutput}
use altair_rs.Wf.Patterns.{LoopAggregate, empty_aggregate, reported, collect}

abbrev pub note_failure : ℕ → Option String → List (ℕ × String) → List (ℕ × String)
note_failure i none rest = rest
note_failure i (some reason) rest = (i, reason) ∷ rest

-- The reason noted for a position.
abbrev pub reason_at : ℕ → List (ℕ × String) → Option String
reason_at j [] = none
reason_at j ((k, reason) ∷ fs) = if k == j then some reason else reason_at j fs

abbrev pub note_success : Option String → ℕ → ℕ
note_success none n = n + 1
note_success (some reason) n = n

module _ {O : Type 0} where
  -- What a pattern answers: the summary, or the first failure if that stops it.
  abbrev pub stopped_by : Bool → List (ℕ × String) → LoopAggregate O → Result (LoopAggregate O)
  stopped_by stop [] agg = ok agg
  stopped_by stop ((j, reason) ∷ rest) agg =
      if stop then err (pattern_stopped (to_string j) reason) else ok agg

  -- The outputs of the tasks that gave one, failed or not.
  abbrev pub outputs : List (Result O) → List O
  outputs [] = []
  outputs (ok out ∷ rs) = out ∷ outputs rs
  outputs (err e ∷ rs) = outputs rs

  stopped_by-false :
      (fs : List (ℕ × String)) (agg : LoopAggregate O) → stopped_by false fs agg ≡ ok agg
  stopped_by-false [] agg = refl
  stopped_by-false (f ∷ fs) agg = refl

  aggregate_path :
      (a b : LoopAggregate O)
      → a.results ≡ b.results
      → a.total_success ≡ b.total_success
      → a.total_failed ≡ b.total_failed
      → a.failed_indices ≡ b.failed_indices
      → a.failure_reasons ≡ b.failure_reasons
      → a ≡ b
  aggregate_path a b p q r s t = λ i. record {
    results = p i;
    total_success = q i;
    total_failed = r i;
    failed_indices = s i;
    failure_reasons = t i;
  }

module _ {O : Type 0} ⦃to : TaskOutput O⦄ where
  -- Why an outcome counts as a failure, if it does.
  abbrev pub failure_of : Result O → Option String
  failure_of (ok out) = if to.is_success out then none else some (reported out)
  failure_of (err e) = some (display e)

  -- The positions and reasons of the failures, from position `i` on.
  abbrev pub failures : ℕ → List (Result O) → List (ℕ × String)
  failures i [] = []
  failures i (r ∷ rs) = note_failure i (failure_of r) (failures (i + 1) rs)

  abbrev pub successes : List (Result O) → ℕ
  successes [] = 0
  successes (r ∷ rs) = note_success (failure_of r) (successes rs)

  -- The aggregate with the outcomes `rs` added from position `i` on.
  abbrev pub extended : ℕ → List (Result O) → LoopAggregate O → LoopAggregate O
  extended i rs agg = record {
    results = agg.results ++ outputs rs;
    total_success = agg.total_success + successes rs;
    total_failed = agg.total_failed + length (failures i rs);
    failed_indices = agg.failed_indices ++ map (λ p. p.0) (failures i rs);
    failure_reasons = agg.failure_reasons ++ map (λ p. p.1) (failures i rs);
  }

  abbrev pub summary : List (Result O) → LoopAggregate O
  summary rs = record {
    results = outputs rs;
    total_success = successes rs;
    total_failed = length (failures 0 rs);
    failed_indices = map (λ p. p.0) (failures 0 rs);
    failure_reasons = map (λ p. p.1) (failures 0 rs);
  }

  abbrev pub report : Bool → List (Result O) → Result (LoopAggregate O)
  report stop rs = stopped_by stop (failures 0 rs) (summary rs)

  -- One failed outcome: the loop stops, or goes on with the failure in the aggregate.
  collect_failed :
      (stop : Bool) (i : ℕ) (reason : String) (rs : List (Result O)) (agg agg' : LoopAggregate O)
      → collect false (i + 1) rs agg ≡ stopped_by false (failures (i + 1) rs) agg'
      → ((if stop then err (pattern_stopped (to_string i) reason) else ok agg)
          >>= collect stop (i + 1) rs)
        ≡ stopped_by stop ((i, reason) ∷ failures (i + 1) rs) agg'
  collect_failed true i reason rs agg agg' h = refl
  collect_failed false i reason rs agg agg' h = h ∙ stopped_by-false (failures (i + 1) rs) agg'

  collect_lem :
      (stop : Bool) (i : ℕ) (rs : List (Result O)) (agg : LoopAggregate O)
      → collect stop i rs agg ≡ stopped_by stop (failures i rs) (extended i rs agg)
  unfolding collect
  collect_lem stop i [] agg = simp (append-nil, add-zero)
  collect_lem stop i (ok out ∷ rs) agg = elim (Bool-cases (to.is_success out)) [
    | inl passed ↦ rw passed (
        collect_lem stop (i + 1) rs _
        ∙ ap (stopped_by stop (failures (i + 1) rs)) (
            aggregate_path _ _ (append_assoc agg.results (out ∷ []) (outputs rs)) (omega arith) refl
              refl refl))
    | inr failed ↦ rw failed (
        collect_failed stop i (reported out) rs _ _ (
          collect_lem false (i + 1) rs _
          ∙ ap (stopped_by false (failures (i + 1) rs)) (
              aggregate_path _ _ (append_assoc agg.results (out ∷ []) (outputs rs)) refl
                (omega arith) (append_assoc agg.failed_indices (i ∷ []) _)
                (append_assoc agg.failure_reasons (reported out ∷ []) _))))
  ]
  collect_lem stop i (err e ∷ rs) agg = collect_failed stop i (display e) rs _ _ (
      collect_lem false (i + 1) rs _
      ∙ ap (stopped_by false (failures (i + 1) rs)) (
          aggregate_path _ _ refl refl (omega arith) (append_assoc agg.failed_indices (i ∷ []) _)
            (append_assoc agg.failure_reasons (display e ∷ []) _)))

  -- On outcomes at hand the loop answers the report: the summary of all of them, or the error of the
  -- first failure where failures stop it.
  pub collect-report :
      (stop : Bool) (rs : List (Result O)) → collect stop 0 rs empty_aggregate ≡ report stop rs
  collect-report stop rs = collect_lem stop 0 rs empty_aggregate ∙ simp zero-add

  -- Every outcome is a success or a failure.
  pub successes-add-failures :
      (i : ℕ) (rs : List (Result O)) → successes rs + length (failures i rs) ≡ length rs
  successes-add-failures i [] = omega arith
  successes-add-failures i (r ∷ rs) = ground (arith, successes-add-failures (i + 1) rs)

  abbrev pub failure_at : List (Result O) → ℕ → Option String
  failure_at rs j = elim (get_elem? rs j) [ none ↦ none | some r ↦ failure_of r ]

  reason_at_below : (i j : ℕ) (rs : List (Result O)) → j < i → reason_at j (failures i rs) ≡ none
  reason_at_below i j [] h = refl
  reason_at_below i j (r ∷ rs) below =
      noted (failure_of r) (reason_at_below (i + 1) j rs (omega arith))
    where
      noted :
          (o : Option String)
          → reason_at j (failures (i + 1) rs) ≡ none
          → reason_at j (note_failure i o (failures (i + 1) rs)) ≡ none
      noted none h = h
      noted (some reason) h = ground arith

  reason_at_lem :
      (i j : ℕ) (rs : List (Result O)) → reason_at (i + j) (failures i rs) ≡ failure_at rs j
  reason_at_lem i j [] = refl
  reason_at_lem i zero (r ∷ rs) =
      let here : i + 0 ≡ i = omega arith in
      rw here (noted (failure_of r) (reason_at_below (i + 1) i rs (omega arith)))
    where
      noted :
          (o : Option String)
          → reason_at i (failures (i + 1) rs) ≡ none
          → reason_at i (note_failure i o (failures (i + 1) rs)) ≡ o
      noted none h = h
      noted (some reason) h = ground arith
  reason_at_lem i (suc j) (r ∷ rs) =
      let shift : i + suc j ≡ i + 1 + j = omega arith in
      rw shift (noted (failure_of r) (reason_at_lem (i + 1) j rs))
    where
      noted :
          (o : Option String)
          → reason_at (i + 1 + j) (failures (i + 1) rs) ≡ failure_at rs j
          → reason_at (i + 1 + j) (note_failure i o (failures (i + 1) rs)) ≡ failure_at rs j
      noted none h = h
      noted (some reason) h = ground arith

  -- The failures of a list of outcomes name exactly the positions of failed outcomes, each with the
  -- reason of the outcome that stands there.
  pub failures_exact :
      (rs : List (Result O)) (j : ℕ) → reason_at j (failures 0 rs) ≡ failure_at rs j
  failures_exact rs j = let shift : 0 + j ≡ j = omega arith in rw shift at (reason_at_lem 0 j rs)
