-- ===== src/Wf/Patterns.antt =====
-- crates/altair-wf/src/patterns.rs without its DAG: single task, pipeline, parallel run, loops.
-- The closure `execute_one` is an activity: a step on the outside state for each input.
pub mod Summary
pub mod FanOut
pub mod Sequential
pub mod Concurrent
pub mod Counts
use altair_rs.Prelude.{
  ℕ, ◌+◌, Bool, true, false, Option, none, some, List, [], ◌∷◌, ◌++◌, map, length, enumerate,
  if◌then◌else◌, ◌==◌,
}
use altair_rs.Prelude.Text.{String, to_string}
use altair_rs.Prelude.Order.{nat_order, sort_by_key}
use altair_rs.Wf.Error.{
  Error, invalid_input, pattern_stopped, display, Result, ok, err, ◌>>=◌, map_err,
}
use altair_rs.Wf.Task.{TaskInput, TaskOutput}
use altair_rs.Wf.Futures.{Fut, Futures, and_then}
use altair_rs.Wf.Params.{StringMap, generate_parameter_combinations}
use altair_rs.Wf.Types.{
  is_fail_fast, FailureStrategy, PipelineInput, PipelineOutput, ParallelInput, ParallelOutput,
  LoopInput, ParameterizedLoopInput, LoopOutput, validate_pipeline, validate_parallel,
  validate_loop, validate_parameterized,
}

pub record LoopAggregate (O : Type 0) : Type 0 where
  pub results : List O
  pub total_success : ℕ
  pub total_failed : ℕ
  pub failed_indices : List ℕ
  pub failure_reasons : List String

abbrev pub empty_aggregate : {O : Type 0} → LoopAggregate O
empty_aggregate = record {
  results = [];
  total_success = 0;
  total_failed = 0;
  failed_indices = [];
  failure_reasons = [];
}

-- The final structs of `pipeline`, `parallel` and the loops.
abbrev pub pipeline_output : {O : Type 0} → LoopAggregate O → PipelineOutput O
pipeline_output agg = record {
  results = agg.results;
  total_success = agg.total_success;
  total_failed = agg.total_failed;
  failed_indices = agg.failed_indices;
  failure_reasons = agg.failure_reasons;
}

abbrev pub parallel_output : {O : Type 0} → LoopAggregate O → ParallelOutput O
parallel_output agg = record {
  results = agg.results;
  total_success = agg.total_success;
  total_failed = agg.total_failed;
  failed_indices = agg.failed_indices;
  failure_reasons = agg.failure_reasons;
}

abbrev pub loop_output : {O : Type 0} → ℕ → LoopAggregate O → LoopOutput O
loop_output item_count agg = record {
  results = agg.results;
  total_success = agg.total_success;
  total_failed = agg.total_failed;
  item_count = item_count;
  failed_indices = agg.failed_indices;
  failure_reasons = agg.failure_reasons;
}

-- A substitutor of the loops: template, item, index, parameters.
abbrev pub Substitutor : Type 0 → Type 0
Substitutor I = I → String → ℕ → List (String × String) → I

-- The inputs of a loop: one for each item, or for each combination of the parameters.
abbrev pub item_inputs : {I : Type 0} → I → Substitutor I → List String → List I
item_inputs template substitutor items =
    map (λ (p : ℕ × String). substitutor template p.1 p.0 []) (enumerate 0 items)

abbrev pub combination_inputs : {I : Type 0} → I → Substitutor I → List StringMap → List I
combination_inputs template substitutor combinations =
    map (λ (p : ℕ × StringMap). substitutor template "" p.0 p.1) (enumerate 0 combinations)

module _ {O : Type 0} ⦃to : TaskOutput O⦄ where
  abbrev pub reported : O → String
  reported out = elim (to.error out) [ none ↦ "task reported failure" | some reason ↦ reason ]

  -- The body of the loops over outcomes: the same text in `pipeline`, `parallel` and
  -- `run_iterations`, for a flag that says whether the first failure stops the pattern.
  unfoldable pub settle : Bool → ℕ → Result O → LoopAggregate O → Result (LoopAggregate O)
  settle stop i (ok out) agg =
      if to.is_success out
      then ok (record agg {
        results = agg.results ++ (out ∷ []);
        total_success = agg.total_success + 1;
      })
      else if stop
      then err (pattern_stopped (to_string i) (reported out))
      else ok (record agg {
        results = agg.results ++ (out ∷ []);
        total_failed = agg.total_failed + 1;
        failed_indices = agg.failed_indices ++ (i ∷ []);
        failure_reasons = agg.failure_reasons ++ (reported out ∷ []);
      })
  settle stop i (err e) agg =
      if stop
      then err (pattern_stopped (to_string i) (display e))
      else ok (record agg {
        total_failed = agg.total_failed + 1;
        failed_indices = agg.failed_indices ++ (i ∷ []);
        failure_reasons = agg.failure_reasons ++ (display e ∷ []);
      })

  -- The loop over outcomes that are all at hand.
  unfoldable pub collect : Bool → ℕ → List (Result O) → LoopAggregate O → Result (LoopAggregate O)
  unfolding settle
  collect stop i [] agg = ok agg
  collect stop i (outcome ∷ outcomes) agg =
      settle stop i outcome agg >>= collect stop (i + 1) outcomes

module _ {W I O : Type 0} ⦃ti : TaskInput I⦄ ⦃to : TaskOutput O⦄
    (execute_one : I → Fut W (Result O)) where
  unfoldable pub execute : I → Fut W (Result O)
  execute input =
      and_then (map_err (λ e. invalid_input (display e)) (ti.validate input))
        (λ _. execute_one input)

  -- The loop of `pipeline`: dispatch, then settle, task by task.
  unfoldable pub pipeline_loop :
      Bool → ℕ → List I → LoopAggregate O → Fut W (Result (LoopAggregate O))
  unfolding settle
  pipeline_loop stop i [] agg w = (ok agg, w)
  pipeline_loop stop i (task ∷ tasks) agg w =
      let (outcome, w') = execute_one task w in
      and_then (settle stop i outcome agg) (λ agg'. pipeline_loop stop (i + 1) tasks agg') w'

  unfoldable pub pipeline : PipelineInput I → Fut W (Result (PipelineOutput O))
  unfolding pipeline_loop
  pipeline input = and_then (validate_pipeline input) λ _ w.
      let (r, w') = pipeline_loop input.stop_on_error 0 input.tasks empty_aggregate w in
      (r >>= λ agg. ok (pipeline_output agg), w')

  -- The sequential branch of `run_iterations`.
  unfoldable pub run_each : List I → Fut W (List (Result O))
  run_each [] w = ([], w)
  run_each (input ∷ inputs) w =
      let (outcome, w') = execute_one input w in
      let (outcomes, w'') = run_each inputs w' in (outcome ∷ outcomes, w'')

  -- One future of the bounded fan-out: it carries the index of its input.
  abbrev pub tagged : ℕ × I → Fut W (ℕ × Result O)
  tagged (i, input) w = let (outcome, w') = execute_one input w in ((i, outcome), w')

  -- The fan-out, the same text in `parallel` and `run_iterations`: all at once for a cap of 0, else at
  -- most `max_in_flight` at a time, sorted back by the tags.
  unfoldable pub fan_out : Futures W → ℕ → List I → Fut W (List (Result O))
  unfolding sort_by_key
  fan_out lib max_in_flight inputs w =
      if max_in_flight == 0
      then lib.join_all (Result O) (map execute_one inputs) w
      else (let (indexed, w') =
            lib.buffer_unordered (ℕ × Result O) max_in_flight (map tagged (enumerate 0 inputs)) w in
          (map (λ p. p.1) (sort_by_key (λ p. p.0) indexed), w'))

module _ {W I O : Type 0} ⦃ti : TaskInput I⦄ ⦃to : TaskOutput O⦄ (lib : Futures W)
    (execute_one : I → Fut W (Result O)) where
  unfoldable pub parallel : ParallelInput I → Fut W (Result (ParallelOutput O))
  unfolding fan_out collect
  parallel input = and_then (validate_parallel input) λ _ w.
      let (raw_results, w') = fan_out execute_one lib input.max_in_flight input.tasks w in
      (
        collect (is_fail_fast input.failure_strategy) 0 raw_results empty_aggregate >>= λ agg.
            ok (parallel_output agg),
        w',
      )

  unfoldable pub run_iterations :
      List I → Bool → FailureStrategy → ℕ → Fut W (Result (LoopAggregate O))
  unfolding fan_out run_each collect
  run_iterations inputs parallel_run strategy max_in_flight w =
      let (outcomes, w') =
        if parallel_run
        then fan_out execute_one lib max_in_flight inputs w
        else run_each execute_one inputs w in
      (collect (is_fail_fast strategy) 0 outcomes empty_aggregate, w')

  unfoldable pub run_loop : LoopInput I → Substitutor I → Fut W (Result (LoopOutput O))
  unfolding run_iterations
  run_loop input substitutor = and_then (validate_loop input) λ _ w.
      let (r, w') =
        run_iterations (item_inputs input.template substitutor input.items) input.parallel
          input.failure_strategy input.max_in_flight w in
      (r >>= λ agg. ok (loop_output (length input.items) agg), w')

  unfoldable pub parameterized_loop :
      ParameterizedLoopInput I → Substitutor I → Fut W (Result (LoopOutput O))
  unfolding run_iterations
  parameterized_loop input substitutor = and_then (validate_parameterized input) λ _ w.
      let combinations = generate_parameter_combinations input.parameters in
      let (r, w') =
        run_iterations (combination_inputs input.template substitutor combinations) input.parallel
          input.failure_strategy input.max_in_flight w in
      (r >>= λ agg. ok (loop_output (length combinations) agg), w')
