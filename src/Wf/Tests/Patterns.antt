-- ===== src/Wf/Tests/Patterns.antt =====
-- Runs of the pipeline, of the parallel run and of the loops.
use altair_rs.Prelude.{ℕ, ◌+◌, ◌≡◌, refl, true, false, List, [], ◌∷◌, map, length}
use altair_rs.Prelude.Text.{String, to_string}
use altair_rs.Wf.Error.{pattern_stopped, display, Result, ok, err, ◌>>=◌}
use altair_rs.Wf.Futures.{Runs}
use altair_rs.Wf.Types.{
  continue, fail_fast, PipelineInput, ParallelInput, ParallelOutput, LoopInput,
  ParameterizedLoopInput, validate_pipeline, validate_parallel, validate_loop,
  validate_parameterized,
}
use altair_rs.Wf.Params.{generate_parameter_combinations}
use altair_rs.Wf.Patterns.{
  pipeline_output, parallel_output, loop_output, Substitutor, pipeline, parallel, run_loop,
  parameterized_loop, run_each,
}
use altair_rs.Wf.Patterns.Summary.{report}
use altair_rs.Wf.Patterns.Sequential.{pipeline_lem}
use altair_rs.Wf.Patterns.Concurrent.{Numbers, parallel_lem, run_loop_lem, parameterized_loop_lem}
use altair_rs.Wf.Patterns.Counts.{parallel_pure}
use altair_rs.Wf.Tests.{small_number, even_number, answer, count_call, count_call_pure, backwards}

abbrev mixed : List ℕ
mixed = 2 ∷ 8 ∷ 4 ∷ 5 ∷ []

abbrev stopping_pipeline : PipelineInput ℕ
stopping_pipeline = record { tasks = mixed; stop_on_error = true; cleanup = false }

-- It stops at task 1, and tasks 2 and 3 never run.
pipeline_stops :
    pipeline count_call stopping_pipeline 0
    ≡ (err (pattern_stopped "1" "activity 'count' failed: timeout"), 2)
unfolding pipeline validate_pipeline to_string display
pipeline_stops = refl

pipeline_lem_example : pipeline count_call stopping_pipeline 0 ≡ (
  (report true (run_each count_call mixed 0).0 >>= λ agg. ok (pipeline_output agg)),
  (run_each count_call (2 ∷ 8 ∷ []) 0).1,
)
unfolding validate_pipeline run_each
pipeline_lem_example = pipeline_lem count_call stopping_pipeline 0 refl

abbrev capped : ParallelInput ℕ
capped = record { tasks = mixed; failure_strategy = continue; max_in_flight = 2 }

abbrev capped_output : ParallelOutput ℕ
capped_output = record {
  results = 2 ∷ 4 ∷ 5 ∷ [];
  total_success = 2;
  total_failed = 2;
  failed_indices = 1 ∷ 3 ∷ [];
  failure_reasons = "activity 'count' failed: timeout" ∷ "task reported failure" ∷ [];
}

parallel_runs : (parallel backwards count_call capped 0).0 ≡ ok capped_output
unfolding parallel validate_parallel to_string display
parallel_runs = refl

parallel_lem_example :
    (outcomes : List (Result ℕ)) × Runs (map count_call mixed) outcomes
    × ((parallel backwards count_call capped 0).0
        ≡ (report false outcomes >>= λ agg. ok (parallel_output agg)))
unfolding validate_parallel
parallel_lem_example = parallel_lem backwards count_call capped 0 refl

parallel_pure_example : (parallel backwards count_call capped 0).0 ≡ (
    validate_parallel capped >>= λ _.
    report false (map answer mixed) >>= λ agg. ok (parallel_output agg))
parallel_pure_example = parallel_pure count_call answer backwards capped 0 count_call_pure

abbrev by_position : Substitutor ℕ
by_position template item i params = template + i

abbrev items_loop : LoopInput ℕ
items_loop = record {
  items = "a" ∷ "b" ∷ [];
  template = 7;
  parallel = true;
  failure_strategy = fail_fast;
  max_in_flight = 1;
}

run_loop_stops :
    (run_loop backwards count_call items_loop by_position 0).0
    ≡ err (pattern_stopped "0" "task reported failure")
unfolding run_loop validate_loop to_string display
run_loop_stops = refl

run_loop_lem_example :
    (inputs : List ℕ) × (outcomes : List (Result ℕ)) × Numbers
      (λ i item x. x ≡ by_position 7 item i [])
      0
      ("a" ∷ "b" ∷ [])
      inputs
    × Runs (map count_call inputs) outcomes
    × ((run_loop backwards count_call items_loop by_position 0).0
        ≡ (report true outcomes >>= λ agg. ok (loop_output 2 agg)))
unfolding validate_loop
run_loop_lem_example = run_loop_lem backwards count_call items_loop by_position 0 refl

abbrev grid : List (String × List String)
grid = ("tier", "std" ∷ "gold" ∷ []) ∷ ("region", "us" ∷ []) ∷ []

abbrev grid_loop : ParameterizedLoopInput ℕ
grid_loop = record {
  parameters = grid;
  template = 2;
  parallel = false;
  failure_strategy = continue;
  max_in_flight = 0;
}

parameterized_loop_lem_example :
    let combinations = generate_parameter_combinations grid in
    (inputs : List ℕ) × (outcomes : List (Result ℕ)) × Numbers
      (λ i params x. x ≡ by_position 2 "" i params)
      0
      combinations
      inputs
    × Runs (map count_call inputs) outcomes
    × ((parameterized_loop backwards count_call grid_loop by_position 0).0
        ≡ (report false outcomes >>= λ agg. ok (loop_output (length combinations) agg)))
unfolding validate_parameterized
parameterized_loop_lem_example =
    parameterized_loop_lem backwards count_call grid_loop by_position 0 refl
