-- ===== src/Wf/Patterns/Sequential.antt =====
-- What a pipeline answers and how far it runs.
use altair_rs.Prelude.{
  ℕ, suc, ◌+◌, ◌≡◌, refl, Bool, true, false, Option, none, some, List, [], ◌∷◌, take, if◌then◌else◌,
  Option-cases, inl, inr, arith,
}
use altair_rs.Prelude.Text.{String, to_string}
use altair_rs.Wf.Error.{pattern_stopped, Result, ok, err, ◌>>=◌}
use altair_rs.Wf.Task.{TaskInput, TaskOutput}
use altair_rs.Wf.Futures.{Fut}
use altair_rs.Wf.Types.{PipelineInput, validate_pipeline}
use altair_rs.Wf.Patterns.{
  LoopAggregate, empty_aggregate, pipeline_output, settle, collect, pipeline_loop, pipeline,
  run_each,
}
use altair_rs.Wf.Patterns.Summary.{failure_of, report, collect-report}

-- How many of the `n` tasks after a task still run.
abbrev going_on : Bool → Option String → ℕ → ℕ
going_on stop none n = n
going_on stop (some reason) n = if stop then 0 else n

module _ {O : Type 0} ⦃to : TaskOutput O⦄ where
  -- How many tasks run: all, or those up to the first failure if that stops the pattern.
  abbrev pub attempted : Bool → List (Result O) → ℕ
  attempted stop [] = 0
  attempted stop (r ∷ rs) = suc (going_on stop (failure_of r) (attempted stop rs))

  -- The aggregate with one more outcome.
  abbrev noted : ℕ → Result O → LoopAggregate O → LoopAggregate O
  noted i r agg = elim (settle false i r agg) [ ok agg' ↦ agg' | err e ↦ agg ]

  settle_passed :
      (stop : Bool) (i : ℕ) (r : Result O) (agg : LoopAggregate O)
      → failure_of r ≡ none
      → settle stop i r agg ≡ ok (noted i r agg)
  unfolding settle
  settle_passed stop i (ok out) agg h = ground arith
  settle_passed stop i (err e) agg h = cc

  settle_failed :
      (stop : Bool) (i : ℕ) (r : Result O) (agg : LoopAggregate O) {reason : String}
      → failure_of r ≡ some reason
      → settle stop i r agg
        ≡ (if stop then err (pattern_stopped (to_string i) reason) else ok (noted i r agg))
  unfolding settle
  settle_failed stop i (ok out) agg h = ground arith
  settle_failed stop i (err e) agg h = ground arith

module _ {W I O : Type 0} ⦃ti : TaskInput I⦄ ⦃to : TaskOutput O⦄
    (execute_one : I → Fut W (Result O)) where
  abbrev LoopMeets : Bool → ℕ → List I → LoopAggregate O → W → Type 0
  LoopMeets stop i tasks agg w = pipeline_loop execute_one stop i tasks agg w ≡ (
    collect stop i (run_each execute_one tasks w).0 agg,
    (run_each execute_one (take (attempted stop (run_each execute_one tasks w).0) tasks) w).1,
  )

  pipeline_loop_lem :
      (stop : Bool) (i : ℕ) (tasks : List I) (agg : LoopAggregate O) (w : W)
      → LoopMeets stop i tasks agg w
  unfolding pipeline_loop run_each collect
  pipeline_loop_lem stop i [] agg w = refl
  pipeline_loop_lem true i (task ∷ tasks) agg w =
      let (outcome, w') = execute_one task w in
      elim (Option-cases (failure_of outcome)) [
        | inl passed ↦
            rw (settle_passed true i outcome agg passed, passed)
              (pipeline_loop_lem true (i + 1) tasks (noted i outcome agg) w')
        | inr (reason, failed) ↦ rw (settle_failed true i outcome agg failed, failed)
      ]
  pipeline_loop_lem false i (task ∷ tasks) agg w =
      let (outcome, w') = execute_one task w in
      elim (Option-cases (failure_of outcome)) [
        | inl passed ↦
            rw (settle_passed false i outcome agg passed, passed)
              (pipeline_loop_lem false (i + 1) tasks (noted i outcome agg) w')
        | inr (reason, failed) ↦
            rw (settle_failed false i outcome agg failed, failed)
              (pipeline_loop_lem false (i + 1) tasks (noted i outcome agg) w')
      ]

  -- A pipeline with a valid input answers the report on the outcomes that its tasks have when run one
  -- after the other, and it runs all tasks, or, where it stops on errors, those up to the first failure.
  pub pipeline_lem :
      (input : PipelineInput I) (w : W)
      → validate_pipeline input ≡ ok tt
      → let outcomes = (run_each execute_one input.tasks w).0 in
        pipeline execute_one input w ≡ (
          (report input.stop_on_error outcomes >>= λ agg. ok (pipeline_output agg)),
          (run_each execute_one (take (attempted input.stop_on_error outcomes) input.tasks) w).1,
        )
  unfolding pipeline
  pipeline_lem input w valid =
      rw
        (
          valid,
          pipeline_loop_lem input.stop_on_error 0 input.tasks empty_aggregate w,
          collect-report,
        )
        refl
