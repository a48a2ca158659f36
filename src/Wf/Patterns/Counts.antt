-- ===== src/Wf/Patterns/Counts.antt =====
-- The counters of an answer, and its independence of the schedule.
use mathlib.Core.Path.{subst}
use altair_rs.Prelude.{
  ℕ, suc, ◌+◌, ◌≡◌, refl, ◌∙◌, sym, ap, Bool, true, false, List, [], ◌∷◌, map, length, length-map,
  inl, inr,
}
use altair_rs.Prelude.Text.{String}
use altair_rs.Wf.Error.{Result, ok, err, ◌>>=◌, Result-cases, ok_of_bind}
use altair_rs.Wf.Task.{TaskInput, TaskOutput}
use altair_rs.Wf.Futures.{Fut, Futures, Runs}
use altair_rs.Wf.Types.{is_fail_fast, ParallelInput, ParallelOutput, validate_parallel}
use altair_rs.Wf.Patterns.{LoopAggregate, parallel_output, parallel}
use altair_rs.Wf.Patterns.Summary.{
  report, failures, summary, stopped_by, collect-report, successes-add-failures,
}
use altair_rs.Wf.Patterns.FanOut.{fan_out-pure}
use altair_rs.Wf.Patterns.Concurrent.{parallel_lem}

ok_injective : {A : Type 0} {a b : A} → ok a ≡ ok b → a ≡ b
ok_injective h = cc

stopped_by-ok :
    {O : Type 0} (b : Bool) (fs : List (ℕ × String)) (s agg : LoopAggregate O)
    → stopped_by b fs s ≡ ok agg
    → s ≡ agg
stopped_by-ok b [] s agg h = cc
stopped_by-ok true (f ∷ fs) s agg h = cc
stopped_by-ok false (f ∷ fs) s agg h = cc

module _ {O : Type 0} where
  abbrev Counted : ℕ → LoopAggregate O → Type 0
  Counted n agg =
      (agg.total_success + agg.total_failed ≡ n)
      × (length agg.failed_indices ≡ agg.total_failed)
      × (length agg.failure_reasons ≡ agg.total_failed)

module _ {O : Type 0} ⦃to : TaskOutput O⦄ where
  report-Counted :
      (stop : Bool) (rs : List (Result O)) (agg : LoopAggregate O)
      → report stop rs ≡ ok agg
      → Counted (length rs) agg
  report-Counted stop rs agg h =
      subst (Counted (length rs)) (stopped_by-ok stop (failures 0 rs) (summary rs) agg h) (
        successes-add-failures 0 rs,
        length-map (λ (p : ℕ × String). p.0) (failures 0 rs),
        length-map (λ (p : ℕ × String). p.1) (failures 0 rs),
      )

module _ {W I O : Type 0} ⦃ti : TaskInput I⦄ ⦃to : TaskOutput O⦄
    (execute_one : I → Fut W (Result O)) where
  length-Runs :
      (inputs : List I) (outcomes : List (Result O))
      → Runs (map execute_one inputs) outcomes
      → length outcomes ≡ length inputs
  length-Runs [] [] h = refl
  length-Runs [] (r ∷ rs) h = elim h [ ]
  length-Runs (x ∷ xs) [] h = elim h [ ]
  length-Runs (x ∷ xs) (r ∷ rs) (_, h) = ap suc (length-Runs xs rs h)

  parallel_refused :
      (lib : Futures W) (input : ParallelInput I) (w : W) {e : _}
      → validate_parallel input ≡ err e
      → (parallel lib execute_one input w).0 ≡ err e
  unfolding parallel
  parallel_refused lib input w h = rw h

  -- An answer of a parallel run counts every task once, as a success or as a failure, and gives a
  -- position and a reason for each failure.
  pub parallel_counts :
      (lib : Futures W) (input : ParallelInput I) (w : W) (out : ParallelOutput O)
      → (parallel lib execute_one input w).0 ≡ ok out
      → (out.total_success + out.total_failed ≡ length input.tasks)
        × (length out.failed_indices ≡ out.total_failed)
        × (length out.failure_reasons ≡ out.total_failed)
  parallel_counts lib input w out h = elim (Result-cases (validate_parallel input)) [
    | inl (_, valid) ↦
        let (outcomes, runs, e) = parallel_lem lib execute_one input w valid in
        let (agg, reported, made) =
          ok_of_bind (report (is_fail_fast input.failure_strategy) outcomes) _ (sym e ∙ h) in
        let counted = report-Counted _ outcomes agg reported in
        let same = length-Runs input.tasks outcomes runs in
        subst
          (λ (o : ParallelOutput O).
            (o.total_success + o.total_failed ≡ length input.tasks)
            × (length o.failed_indices ≡ o.total_failed)
            × (length o.failure_reasons ≡ o.total_failed))
          (ok_injective made) (counted.0 ∙ same, counted.1, counted.2)
    | inr (e, invalid) ↦ cc (parallel_refused lib input w invalid)
  ]

  -- Where an activity's result depends on its input alone, a parallel run answers the report on the
  -- results of its tasks in their order, or the error of its validation: the cap, the order of
  -- completion and the outside state do not show.
  pub parallel_pure :
      (f : I → Result O) (lib : Futures W) (input : ParallelInput I) (w : W)
      → ((x : I) (v : W) → (execute_one x v).0 ≡ f x)
      → (parallel lib execute_one input w).0 ≡ (
          validate_parallel input >>= λ _.
          report (is_fail_fast input.failure_strategy) (map f input.tasks) >>= λ agg.
          ok (parallel_output agg))
  unfolding parallel
  parallel_pure f lib input w pure = elim (Result-cases (validate_parallel input)) [
    | inl (_, valid) ↦ rw (
      valid,
      collect-report,
      fan_out-pure execute_one lib f input.max_in_flight input.tasks w pure,
    )
    | inr (e, invalid) ↦ rw invalid
  ]
