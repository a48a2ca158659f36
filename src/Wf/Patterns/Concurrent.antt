-- ===== src/Wf/Patterns/Concurrent.antt =====
-- What the patterns that may run their tasks at once answer: `parallel` and the loops.
use altair_rs.Prelude.{ℕ, ◌+◌, ◌≡◌, refl, Bool, true, false, List, [], ◌∷◌, map, length}
use altair_rs.Wf.Error.{Result, ok, ◌>>=◌}
use altair_rs.Wf.Task.{TaskInput, TaskOutput}
use altair_rs.Wf.Futures.{Fut, Futures, Runs}
use altair_rs.Wf.Params.{generate_parameter_combinations}
use altair_rs.Wf.Types.{
  FailureStrategy, is_fail_fast, ParallelInput, LoopInput, ParameterizedLoopInput,
  validate_parallel, validate_loop, validate_parameterized,
}
use altair_rs.Wf.Patterns.{
  parallel_output, loop_output, enumerate, Substitutor, fan_out, run_each, parallel, run_iterations,
  item_inputs, combination_inputs, run_loop, parameterized_loop,
}
use altair_rs.Wf.Patterns.Summary.{report, collect-report}
use altair_rs.Wf.Patterns.FanOut.{fan_out-Runs}

-- Each element of a list, with its position from a number on, is related to the element at the same
-- place of another list of the same length.
abbrev pub Numbers : {A B : Type 0} → (ℕ → A → B → Type 0) → ℕ → List A → List B → Type 0
Numbers P i [] [] = Unit {0}
Numbers P i (x ∷ xs) (y ∷ ys) = P i x y × Numbers P (i + 1) xs ys
Numbers P i [] (y ∷ ys) = ⊥
Numbers P i (x ∷ xs) [] = ⊥

Numbers-enumerate :
    {A B : Type 0} (f : ℕ × A → B) (i : ℕ) (xs : List A)
    → Numbers (λ j x y. y ≡ f (j, x)) i xs (map f (enumerate i xs))
Numbers-enumerate f i [] = tt
Numbers-enumerate f i (x ∷ xs) = (refl, Numbers-enumerate f (i + 1) xs)

module _ {W I O : Type 0} ⦃ti : TaskInput I⦄ ⦃to : TaskOutput O⦄ (lib : Futures W)
    (execute_one : I → Fut W (Result O)) where
  -- A parallel run with a valid input answers the report on one outcome for each task, in the order
  -- of the tasks, whatever its cap and the order of completion.
  pub parallel_lem :
      (input : ParallelInput I) (w : W)
      → validate_parallel input ≡ ok tt
      → (outcomes : List (Result O)) × Runs (map execute_one input.tasks) outcomes
        × ((parallel lib execute_one input w).0 ≡ (
            report (is_fail_fast input.failure_strategy) outcomes >>= λ agg.
            ok (parallel_output agg)))
  unfolding parallel
  parallel_lem input w valid = (
    (fan_out execute_one lib input.max_in_flight input.tasks w).0,
    fan_out-Runs execute_one lib input.max_in_flight input.tasks w,
    rw (valid, collect-report),
  )

  run_each-Runs :
      (inputs : List I) (w : W) → Runs (map execute_one inputs) (run_each execute_one inputs w).0
  unfolding run_each
  run_each-Runs [] w = tt
  run_each-Runs (x ∷ xs) w = ((w, refl), run_each-Runs xs (execute_one x w).1)

  run_iterations_lem :
      (inputs : List I) (parallel_run : Bool) (strategy : FailureStrategy) (cap : ℕ) (w : W)
      → (outcomes : List (Result O)) × Runs (map execute_one inputs) outcomes
        × ((run_iterations lib execute_one inputs parallel_run strategy cap w).0
            ≡ report (is_fail_fast strategy) outcomes)
  unfolding run_iterations
  run_iterations_lem inputs true strategy cap w =
      (_, fan_out-Runs execute_one lib cap inputs w, collect-report _ _)
  run_iterations_lem inputs false strategy cap w = (_, run_each-Runs inputs w, collect-report _ _)

  -- A loop with a valid input, parallel or not, answers the report on one outcome for each item, in
  -- the order of the items, and counts the items. The input of each outcome is what the
  -- substitutor makes of the template, the item, its position and no parameters.
  pub run_loop_lem :
      (input : LoopInput I) (substitutor : Substitutor I) (w : W)
      → validate_loop input ≡ ok tt
      → (inputs : List I) × (outcomes : List (Result O)) × Numbers
          (λ i item x. x ≡ substitutor input.template item i [])
          0
          input.items
          inputs
        × Runs (map execute_one inputs) outcomes
        × ((run_loop lib execute_one input substitutor w).0 ≡ (
            report (is_fail_fast input.failure_strategy) outcomes >>= λ agg.
            ok (loop_output (length input.items) agg)))
  unfolding run_loop
  run_loop_lem input substitutor w valid =
      let inputs = item_inputs input.template substitutor input.items in
      let (outcomes, runs, e) =
        run_iterations_lem inputs input.parallel input.failure_strategy input.max_in_flight w in
      (
        inputs,
        outcomes,
        Numbers-enumerate (λ p. substitutor input.template p.1 p.0 []) 0 input.items,
        runs,
        rw (valid, e),
      )

  -- A parameterized loop with a valid input answers the report on one outcome for each combination
  -- of its parameters, in their order, and counts the combinations. The input of each outcome is
  -- what the substitutor makes of the template, an empty item, the position and the combination.
  pub parameterized_loop_lem :
      (input : ParameterizedLoopInput I) (substitutor : Substitutor I) (w : W)
      → validate_parameterized input ≡ ok tt
      → let combinations = generate_parameter_combinations input.parameters in
        (inputs : List I) × (outcomes : List (Result O)) × Numbers
          (λ i params x. x ≡ substitutor input.template "" i params)
          0
          combinations
          inputs
        × Runs (map execute_one inputs) outcomes
        × ((parameterized_loop lib execute_one input substitutor w).0 ≡ (
            report (is_fail_fast input.failure_strategy) outcomes >>= λ agg.
            ok (loop_output (length combinations) agg)))
  unfolding parameterized_loop
  parameterized_loop_lem input substitutor w valid =
      let combinations = generate_parameter_combinations input.parameters in
      let inputs = combination_inputs input.template substitutor combinations in
      let (outcomes, runs, e) =
        run_iterations_lem inputs input.parallel input.failure_strategy input.max_in_flight w in
      (
        inputs,
        outcomes,
        Numbers-enumerate (λ p. substitutor input.template "" p.0 p.1) 0 combinations,
        runs,
        rw (valid, e),
      )
