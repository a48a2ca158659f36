-- ===== src/Wf/Types/Validation.antt =====
-- What the `validate` methods of the pattern inputs accept.
use altair_rs.Prelude.{
  ℕ, ◌+◌, ◌≡◌, refl, ◌≢◌, ◌↔◌, List, [], ◌∷◌, All, is_empty, if◌then◌else◌, arith,
}
use altair_rs.Prelude.Text.{String, eq_iff}
use altair_rs.Wf.Error.{Error, ok, err}
use altair_rs.Wf.Task.{TaskInput}
use altair_rs.Wf.Types.{
  FailureStrategy, continue, fail_fast, serialize_strategy, deserialize_strategy, parsed,
  PipelineInput, ParallelInput, LoopInput, ParameterizedLoopInput, check_tasks, check_values,
  validate_pipeline, validate_parallel, validate_loop, validate_parameterized,
}

pub deserialize-serialize :
    (s : FailureStrategy) → deserialize_strategy (serialize_strategy s) ≡ parsed s
unfolding deserialize_strategy serialize_strategy
deserialize-serialize continue = refl
deserialize-serialize fail_fast = refl

-- A text is read as a strategy exactly when it is empty, `continue` or `fail_fast`.
pub deserialize_exact : (s : String) → deserialize_strategy s ≡ parsed fail_fast → s ≡ "fail_fast"
unfolding deserialize_strategy
deserialize_exact s h = ground (arith, eq_iff s "", eq_iff s "continue", eq_iff s "fail_fast")

check_values_iff :
    (m : List (String × List String)) → (check_values m ≡ ok tt) ↔ All (λ p. p.1 ≢ []) m
unfolding check_values
check_values_iff [] = (λ _. tt, λ _. refl)
check_values_iff ((k, []) ∷ m) = (λ h. cc, λ h. absurd (h.0 refl))
check_values_iff ((k, v ∷ vs) ∷ m) =
    let (to, from) = check_values_iff m in (λ h. (λ absent. cc, to h), λ h. from h.1)

module _ {I : Type 0} ⦃t : TaskInput I⦄ where
  pub check_tasks_iff :
      (i : ℕ) (tasks : List I)
      → (check_tasks i tasks ≡ ok tt) ↔ All (λ task. t.validate task ≡ ok tt) tasks
  unfolding check_tasks
  check_tasks_iff i [] = (λ _. tt, λ _. refl)
  check_tasks_iff i (task ∷ tasks) =
      let (to, from) = check_tasks_iff (i + 1) tasks in
      (λ h. ground (arith, to), λ h. ground (arith, from))

  nonempty_tasks_iff :
      (e : Error) (tasks : List I)
      → ((if is_empty tasks then err e else check_tasks 0 tasks) ≡ ok tt)
        ↔ ((tasks ≢ []) × All (λ task. t.validate task ≡ ok tt) tasks)
  nonempty_tasks_iff e [] = (λ h. cc, λ h. absurd (h.0 refl))
  nonempty_tasks_iff e (task ∷ tasks) =
      let (to, from) = check_tasks_iff 0 (task ∷ tasks) in
      (λ h. (λ absent. cc, to h), λ h. from h.1)

  -- A pipeline input is accepted exactly when it has a task and every task is valid, and so is a
  -- parallel input.
  pub validate_tasks_iff :
      (p : PipelineInput I) (q : ParallelInput I)
      → ((validate_pipeline p ≡ ok tt)
          ↔ ((p.tasks ≢ []) × All (λ task. t.validate task ≡ ok tt) p.tasks))
        × ((validate_parallel q ≡ ok tt)
            ↔ ((q.tasks ≢ []) × All (λ task. t.validate task ≡ ok tt) q.tasks))
  unfolding validate_pipeline validate_parallel
  validate_tasks_iff p q = (nonempty_tasks_iff _ p.tasks, nonempty_tasks_iff _ q.tasks)

  -- A loop input is accepted exactly when it has an item and its template is valid; a parameterized
  -- one when it has a parameter, no parameter without values, and a valid template.
  pub validate_loops_iff :
      (p : LoopInput I) (q : ParameterizedLoopInput I)
      → ((validate_loop p ≡ ok tt) ↔ ((p.items ≢ []) × (t.validate p.template ≡ ok tt)))
        × ((validate_parameterized q ≡ ok tt) ↔ (
            (q.parameters ≢ [])
            × All (λ p. p.1 ≢ []) q.parameters
            × (t.validate q.template ≡ ok tt)))
  unfolding validate_loop validate_parameterized
  validate_loops_iff p q =
      let (to, from) = check_values_iff q.parameters in
      ((λ h. ground arith, λ h. ground arith), (λ h. ground (arith, to), λ h. ground (arith, from)))
