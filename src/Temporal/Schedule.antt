-- ===== src/Temporal/Schedule.antt =====
-- crates/altair-temporal/src/schedule/mod.rs: the builder of schedules by the name of a workflow. A
-- `Duration` is its number of nanoseconds. The server of schedules is the parameter `Schedules`.
-- Spans and log lines are left out.
pub mod Server
pub mod Typed
pub mod Valid
pub mod Total
pub mod Deploy
use altair_rs.Prelude.{
  ℕ, Bool, true, false, not, ◌&&◌, ◌||◌, Option, none, some, List, [], ◌∷◌, ◌++◌, map, is_empty,
  if◌then◌else◌,
}
use altair_rs.Prelude.Text.{String, ◌+++◌, codes}
use altair_rs.Prelude.Async.{Fut, Result as AsyncResult, ok, err, map_error}
use altair_rs.Temporal.Error.{Result, schedule_failed, configuration}

-- `SpecParts`, and its default.
pub record SpecParts : Type 0 where
  pub cron_strings : List String
  pub intervals : List ℕ
  pub timezone : Option String
  pub note : Option String
  pub paused : Bool

abbrev pub default_parts : SpecParts
default_parts = record {
  cron_strings = [];
  intervals = [];
  timezone = none;
  note = none;
  paused = false;
}

-- `ScheduleIntervalSpec` and `ScheduleSpec` of the SDK: what the crate sets, the rest by default.
pub record IntervalSpec : Type 0 where
  pub every : ℕ
  pub offset : Option ℕ

pub record ScheduleSpec : Type 0 where
  pub cron_strings : List String
  pub intervals : List IntervalSpec
  pub timezone_name : String

-- `Option::unwrap_or_default` on texts.
abbrev pub unwrap_or_default : Option String → String
unwrap_or_default none = ""
unwrap_or_default (some text) = text

abbrev pub interval_spec : ℕ → IntervalSpec
interval_spec d = record { every = d; offset = none }

abbrev pub to_spec : SpecParts → ScheduleSpec
to_spec self = record {
  cron_strings = self.cron_strings;
  intervals = map interval_spec self.intervals;
  timezone_name = unwrap_or_default self.timezone;
}

abbrev pub has_trigger : SpecParts → Bool
has_trigger self = not (is_empty self.cron_strings) || not (is_empty self.intervals)

-- The setters that the two builders share.
abbrev pub add_cron : String → SpecParts → SpecParts
add_cron cron self = record self { cron_strings = self.cron_strings ++ (cron ∷ []) }

abbrev pub add_interval : ℕ → SpecParts → SpecParts
add_interval d self = record self { intervals = self.intervals ++ (d ∷ []) }

abbrev pub set_timezone : String → SpecParts → SpecParts
set_timezone tz self = record self { timezone = some tz }

abbrev pub set_note : String → SpecParts → SpecParts
set_note n self = record self { note = some n }

abbrev pub set_paused : Bool → SpecParts → SpecParts
set_paused p self = record self { paused = p }

-- A `Payload` of the protocol, where the crate sets the metadata and the data.
pub record Payload : Type 0 where
  pub metadata : List (String × List ℕ)
  pub data_bytes : List ℕ

-- `Schedule`, and `ScheduleBuilder`, which wraps one.
pub record Schedule : Type 0 where
  pub spec : SpecParts
  pub workflow_type : Option String
  pub task_queue : Option String
  pub workflow_id : Option String
  pub input_payloads : Option (List Payload)

-- `ScheduleAction`: what its constructors are given. `I` is the type of typed inputs.
pub data Action (I : Type 0) : Type 0 where
  start_untyped :
      (workflow_type : String) (payloads : List Payload) (task_queue workflow_id : String)
      → Action I
  start_named : (workflow_type task_queue workflow_id : String) → Action I
  start_typed : (input : I) (task_queue workflow_id : String) → Action I

pub record CreateOptions (I : Type 0) : Type 0 where
  pub action : Action I
  pub spec : ScheduleSpec
  pub paused : Bool
  pub note : String

-- The client of the SDK. `W` is everything outside of the crate, `U` what an update changes.
pub record Schedules (W B I U : Type 0) : Type 0 where
  pub create_schedule : String → CreateOptions I → Fut W (AsyncResult (Unit {0}) B)
  pub update_schedule : String → (U → U) → Fut W (AsyncResult (Unit {0}) B)
  pub delete_schedule : String → Fut W (AsyncResult (Unit {0}) B)
  pub with_spec : ScheduleSpec → U → U
  pub with_paused : Bool → U → U
  pub with_note : String → U → U

abbrev pub new_schedule : Schedule
new_schedule = record {
  spec = default_parts;
  workflow_type = none;
  task_queue = none;
  workflow_id = none;
  input_payloads = none;
}

abbrev pub start_workflow : String → String → String → Schedule → Schedule
start_workflow workflow_type task_queue workflow_id self = record self {
  workflow_type = some workflow_type;
  task_queue = some task_queue;
  workflow_id = some workflow_id;
}

abbrev pub json_plain : List ℕ → List Payload
json_plain data_bytes =
    record { metadata = ("encoding", codes "json/plain") ∷ []; data_bytes = data_bytes } ∷ []

-- `serde_json::to_vec` at the value is given by its answer.
abbrev pub encode_input_payloads :
    {B : Type 0} → AsyncResult (List ℕ) String → Result (List Payload) B String
encode_input_payloads (ok data_bytes) = ok (json_plain data_bytes)
encode_input_payloads (err e) = err (configuration (◌+++◌ "schedule input serialise failed: " e))

abbrev pub with_payloads :
    {B : Type 0} → Schedule → Result (List Payload) B String → Result Schedule B String
with_payloads self (ok payloads) = ok (record self { input_payloads = some payloads })
with_payloads self (err e) = err e

-- `ScheduleBuilder::input`.
abbrev pub input : {B : Type 0} → AsyncResult (List ℕ) String → Schedule → Result Schedule B String
input serialised self = with_payloads self (encode_input_payloads serialised)

abbrev pub is_none : {A : Type 0} → Option A → Bool
is_none none = true
is_none (some a) = false

unfoldable pub validate_schedule : {B : Type 0} → Schedule → Result (Unit {0}) B String
validate_schedule s =
    if is_none s.workflow_type || is_none s.task_queue || is_none s.workflow_id
    then err
        (configuration "schedule requires start_workflow(workflow_type, task_queue, workflow_id)")
    else if has_trigger s.spec
    then ok tt
    else err (configuration "schedule requires at least one cron or interval")

-- The action by name, with the payloads where there are some.
abbrev pub action_of : {I : Type 0} → Option (List Payload) → String → String → String → Action I
action_of (some payloads) workflow_type task_queue workflow_id =
    start_untyped workflow_type payloads task_queue workflow_id
action_of none workflow_type task_queue workflow_id =
    start_named workflow_type task_queue workflow_id

-- The options for an action: `CreateScheduleOptions::builder()…build()`.
abbrev pub options_of : {I : Type 0} → SpecParts → Action I → CreateOptions I
options_of parts action = record {
  action = action;
  spec = to_spec parts;
  paused = parts.paused;
  note = unwrap_or_default parts.note;
}

-- `expect` is a panic, `none`, where a part is missing.
infixl 5 ◌>>=◌
abbrev pub ◌>>=◌ : {A C : Type 0} → Option A → (A → Option C) → Option C
none >>= next = none
some a >>= next = next a

unfoldable pub to_create_options : {I : Type 0} → Schedule → Option (CreateOptions I)
to_create_options s = do
  workflow_type ← s.workflow_type
  task_queue ← s.task_queue
  workflow_id ← s.workflow_id
  some (options_of s.spec (action_of s.input_payloads workflow_type task_queue workflow_id))

-- A run: its answer and the next outside state, or `none` where it panics.
abbrev pub Run : Type 0 → Type 0 → Type 0
Run W B = Option (Result (Unit {0}) B String × W)

module _ {W B : Type 0} where
  -- `.map_err(|e| Error::schedule(…))`.
  abbrev pub as_schedule_error : AsyncResult (Unit {0}) B × W → Result (Unit {0}) B String × W
  as_schedule_error (answer, w) = (map_error schedule_failed answer, w)

  -- `?` on a validation.
  abbrev pub when_valid : Result (Unit {0}) B String → W → Run W B → Run W B
  when_valid (ok _) w next = next
  when_valid (err e) w next = some (err e, w)

  -- The match of `create_or_update` on the answer of `create`.
  abbrev pub or_update : Run W B → (W → Run W B) → Run W B
  or_update none update = none
  or_update (some (ok _, w)) update = some (ok tt, w)
  or_update (some (err (schedule_failed e), w)) update = update w
  or_update (some (err e, w)) update = some (err e, w)

module _ {W B I U : Type 0} (client : Schedules W B I U) (id : String) where
  -- The closure that `apply_spec_update` gives to the SDK.
  abbrev pub update_note : Option String → U → U
  update_note none u = u
  update_note (some n) u = client.with_note n u

  abbrev pub spec_update : SpecParts → U → U
  spec_update parts u =
      update_note parts.note (client.with_paused parts.paused (client.with_spec (to_spec parts) u))

  unfoldable pub apply_spec_update : SpecParts → W → Result (Unit {0}) B String × W
  apply_spec_update parts w = as_schedule_error (client.update_schedule id (spec_update parts) w)

  -- The call of the server, with the options of a validated schedule.
  abbrev pub send_create : Option (CreateOptions I) → W → Run W B
  send_create options w = do
    opts ← options
    some (as_schedule_error (client.create_schedule id opts w))

  unfoldable pub create : Schedule → W → Run W B
  unfolding validate_schedule to_create_options
  create self w = when_valid (validate_schedule self) w (send_create (to_create_options self) w)

  unfoldable pub update : Schedule → W → Run W B
  unfolding validate_schedule apply_spec_update
  update self w = when_valid (validate_schedule self) w (some (apply_spec_update self.spec w))

  unfoldable pub create_or_update : Schedule → W → Run W B
  unfolding create update
  create_or_update self w = or_update (create self w) (update self)

  unfoldable pub delete : W → Result (Unit {0}) B String × W
  delete w = as_schedule_error (client.delete_schedule id w)

  -- The match of `delete_if_exists`.
  abbrev pub ignore_schedule_error : Result (Unit {0}) B String × W → Result (Unit {0}) B String × W
  ignore_schedule_error (ok _, w) = (ok tt, w)
  ignore_schedule_error (err (schedule_failed e), w) = (ok tt, w)
  ignore_schedule_error (err e, w) = (err e, w)

  unfoldable pub delete_if_exists : W → Result (Unit {0}) B String × W
  unfolding delete
  delete_if_exists w = ignore_schedule_error (delete w)
