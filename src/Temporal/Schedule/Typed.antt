-- ===== src/Temporal/Schedule/Typed.antt =====
-- crates/altair-temporal/src/schedule/typed.rs: the builder of schedules of a workflow type, whose
-- inputs are of type `I`.
use altair_rs.Prelude.{◌||◌, Option, none, some, if◌then◌else◌}
use altair_rs.Prelude.Text.{String}
use altair_rs.Prelude.Async.{ok, err}
use altair_rs.Temporal.Error.{Result, configuration}
use altair_rs.Temporal.Schedule.{
  SpecParts, default_parts, has_trigger, is_none, CreateOptions, start_typed, options_of, Schedules,
  Run, when_valid, or_update, apply_spec_update, send_create, ◌>>=◌,
}

-- `TypedScheduleBuilder`.
pub record TypedSchedule (I : Type 0) : Type 0 where
  pub spec : SpecParts
  pub task_queue : Option String
  pub workflow_id : Option String
  pub input : Option I

module _ {I : Type 0} where
  abbrev pub new_typed : TypedSchedule I
  new_typed = record { spec = default_parts; task_queue = none; workflow_id = none; input = none }

  abbrev pub typed_input : I → TypedSchedule I → TypedSchedule I
  typed_input value self = record self { input = some value }

  abbrev pub typed_task_queue : String → TypedSchedule I → TypedSchedule I
  typed_task_queue tq self = record self { task_queue = some tq }

  abbrev pub typed_workflow_id : String → TypedSchedule I → TypedSchedule I
  typed_workflow_id wid self = record self { workflow_id = some wid }

  -- `validate`.
  unfoldable pub validate_typed : {B : Type 0} → TypedSchedule I → Result (Unit {0}) B String
  validate_typed self =
      if is_none self.task_queue || is_none self.workflow_id
      then err (configuration "typed schedule requires task_queue(...) and workflow_id(...)")
      else if is_none self.input
      then err (configuration "typed schedule requires input(...)")
      else if has_trigger self.spec
      then ok tt
      else err (configuration "schedule requires at least one cron or interval")

  unfoldable pub into_create_options : TypedSchedule I → Option (CreateOptions I)
  into_create_options self = do
    value ← self.input
    task_queue ← self.task_queue
    workflow_id ← self.workflow_id
    some (options_of self.spec (start_typed value task_queue workflow_id))

module _ {W B I U : Type 0} (client : Schedules W B I U) (id : String) where
  unfoldable pub create_typed : TypedSchedule I → W → Run W B
  unfolding validate_typed into_create_options
  create_typed self w =
      when_valid (validate_typed self) w (send_create client id (into_create_options self) w)

  unfoldable pub update_typed : TypedSchedule I → W → Run W B
  unfolding apply_spec_update
  update_typed self w =
      if has_trigger self.spec
      then some (apply_spec_update client id self.spec w)
      else some (err (configuration "schedule requires at least one cron or interval"), w)

  unfoldable pub create_or_update_typed : TypedSchedule I → W → Run W B
  unfolding create_typed apply_spec_update
  create_or_update_typed self w =
      or_update (create_typed self w) (λ w1. some (apply_spec_update client id self.spec w1))
