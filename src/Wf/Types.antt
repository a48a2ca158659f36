-- ===== src/Wf/Types.antt =====
-- crates/altair-wf/src/types.rs and the enum `FailureStrategy` of helpers.rs: the inputs and outputs
-- of the patterns, what `validate` refuses, and the text form of the failure strategy.
pub mod Validation
use altair_rs.Prelude.{ℕ, ◌+◌, Bool, List, [], ◌∷◌, is_empty, if◌then◌else◌}
use altair_rs.Prelude.Text.{String, ◌+++◌, to_string, str_eq}
use altair_rs.Wf.Error.{Error, invalid_input, display, Result, ok, err, ◌>>=◌, ◌>>◌, map_err}
use altair_rs.Wf.Task.{TaskInput}

pub data FailureStrategy : Type 0 where
  continue fail_fast : FailureStrategy

abbrev pub is_fail_fast : FailureStrategy → Bool
is_fail_fast continue = Bool.false
is_fail_fast fail_fast = Bool.true

unfoldable pub serialize_strategy : FailureStrategy → String
serialize_strategy continue = "continue"
serialize_strategy fail_fast = "fail_fast"

-- The custom error of the deserializer is its text.
pub data Parsed (A : Type 0) : Type 0 where
  parsed : A → Parsed A
  custom : String → Parsed A

unfoldable pub deserialize_strategy : String → Parsed FailureStrategy
deserialize_strategy s =
    if str_eq s ""
    then parsed continue
    else if str_eq s "continue"
    then parsed continue
    else if str_eq s "fail_fast"
    then parsed fail_fast
    else custom ("unknown failure_strategy '" +++ s +++ "', expected 'continue' or 'fail_fast'")

pub record PipelineInput (I : Type 0) : Type 0 where
  pub tasks : List I
  pub stop_on_error : Bool
  pub cleanup : Bool

-- The counters and lists that `PipelineOutput` and `ParallelOutput` hold, and `LoopOutput` with the
-- count of its items beside them.
pub record PipelineOutput (O : Type 0) : Type 0 where
  pub results : List O
  pub total_success : ℕ
  pub total_failed : ℕ
  pub failed_indices : List ℕ
  pub failure_reasons : List String

pub record ParallelInput (I : Type 0) : Type 0 where
  pub tasks : List I
  pub failure_strategy : FailureStrategy
  pub max_in_flight : ℕ

pub record ParallelOutput (O : Type 0) : Type 0 where
  pub results : List O
  pub total_success : ℕ
  pub total_failed : ℕ
  pub failed_indices : List ℕ
  pub failure_reasons : List String

pub record LoopInput (I : Type 0) : Type 0 where
  pub items : List String
  pub template : I
  pub parallel : Bool
  pub failure_strategy : FailureStrategy
  pub max_in_flight : ℕ

pub record ParameterizedLoopInput (I : Type 0) : Type 0 where
  pub parameters : List (String × List String)
  pub template : I
  pub parallel : Bool
  pub failure_strategy : FailureStrategy
  pub max_in_flight : ℕ

pub record LoopOutput (O : Type 0) : Type 0 where
  pub results : List O
  pub total_success : ℕ
  pub total_failed : ℕ
  pub item_count : ℕ
  pub failed_indices : List ℕ
  pub failure_reasons : List String

abbrev pub in_task : ℕ → Error → Error
in_task i e = invalid_input ("task[" +++ to_string i +++ "]: " +++ display e)

abbrev pub in_template : Error → Error
in_template e = invalid_input ("template: " +++ display e)

-- The loop over `parameters` in `ParameterizedLoopInput::validate`.
unfoldable pub check_values : List (String × List String) → Result (Unit {0})
check_values [] = ok tt
check_values ((k, vs) ∷ m) =
    if is_empty vs
    then err (invalid_input ("parameter '" +++ k +++ "' value list must be non-empty"))
    else check_values m

module _ {I : Type 0} ⦃t : TaskInput I⦄ where
  -- The loop over `tasks` in the `validate` of a pipeline and of a parallel run.
  unfoldable pub check_tasks : ℕ → List I → Result (Unit {0})
  check_tasks i [] = ok tt
  check_tasks i (task ∷ tasks) = map_err (in_task i) (t.validate task) >> check_tasks (i + 1) tasks

  unfoldable pub validate_pipeline : PipelineInput I → Result (Unit {0})
  unfolding check_tasks
  validate_pipeline input =
      if is_empty input.tasks
      then err (invalid_input "pipeline tasks must be non-empty")
      else check_tasks 0 input.tasks

  unfoldable pub validate_parallel : ParallelInput I → Result (Unit {0})
  unfolding check_tasks
  validate_parallel input =
      if is_empty input.tasks
      then err (invalid_input "parallel tasks must be non-empty")
      else check_tasks 0 input.tasks

  unfoldable pub validate_loop : LoopInput I → Result (Unit {0})
  validate_loop input =
      if is_empty input.items
      then err (invalid_input "loop items must be non-empty")
      else map_err in_template (t.validate input.template)

  unfoldable pub validate_parameterized : ParameterizedLoopInput I → Result (Unit {0})
  unfolding check_values
  validate_parameterized input =
      if is_empty input.parameters
      then err (invalid_input "parameterized loop parameters must be non-empty")
      else (check_values input.parameters >> map_err in_template (t.validate input.template))
