-- ===== src/Temporal/Schedule/Valid.antt =====
-- crates/altair-temporal/src/schedule: the validation of the two builders, and the options that
-- a validated one gives.
use altair_rs.Prelude.{
  ◌≡◌, refl, ◌⊎◌, inl, inr, Bool, true, false, ◌||◌, Option, none, some, Bool-cases,
}
use altair_rs.Prelude.Text.{String}
use altair_rs.Prelude.Async.{ok, err}
use altair_rs.Temporal.Error.{Result, configuration, configuration_of}
use altair_rs.Temporal.Schedule.{
  SpecParts, Schedule, CreateOptions, Action, is_none, has_trigger, validate_schedule,
  to_create_options, options_of, action_of, start_typed,
}
use altair_rs.Temporal.Schedule.Typed.{TypedSchedule, validate_typed, into_create_options}

-- A validation answers ok, and then the options are those of some action, or it answers a
-- configuration error.
abbrev pub Checked :
    {B I : Type 0} → SpecParts → Result (Unit {0}) B String → Option (CreateOptions I) → Type 0
Checked {I = I} parts answer options =
    ((answer ≡ ok tt) × (action : Action I) × (options ≡ some (options_of parts action)))
    ⊎ ((text : String) × (answer ≡ err (configuration text)))

some_of : {A : Type 0} (o : Option A) → is_none o ≡ false → (a : A) × (o ≡ some a)
some_of none h = cc
some_of (some a) h = (a, refl)

or_false : (a b : Bool) → (a || b) ≡ false → (a ≡ false) × (b ≡ false)
or_false false b h = (refl, h)
or_false true b h = cc

-- `expect` in `to_create_options` never meets a missing part after `validate_schedule`.
pub validate_schedule_lem :
    {B I : Type 0} (self : Schedule)
    → Checked {B = B} {I = I} self.spec (validate_schedule self) (to_create_options self)
unfolding validate_schedule to_create_options
validate_schedule_lem self =
    elim (Bool-cases
      (is_none self.workflow_type || is_none self.task_queue || is_none self.workflow_id)) [
        | inl missing ↦ inr (configuration_of (validate_schedule self) (rw missing tt))
        | inr present ↦ elim (Bool-cases (has_trigger self.spec)) [
          | inr idle ↦ inr (configuration_of (validate_schedule self) (rw (present, idle) tt))
          | inl triggered ↦
              let (named, r) =
                or_false (is_none self.workflow_type || is_none self.task_queue)
                  (is_none self.workflow_id) present in
              let (p, q) = or_false (is_none self.workflow_type) (is_none self.task_queue) named in
              let (workflow_type, a) = some_of self.workflow_type p in
              let (task_queue, b) = some_of self.task_queue q in
              let (workflow_id, c) = some_of self.workflow_id r in
              inl (
                rw (present, triggered) refl,
                action_of self.input_payloads workflow_type task_queue workflow_id,
                rw (a, b, c) refl,
              )
        ]
      ]

pub validate_typed_lem :
    {B I : Type 0} (self : TypedSchedule I)
    → Checked {B = B} {I = I} self.spec (validate_typed self) (into_create_options self)
unfolding validate_typed into_create_options
validate_typed_lem self = elim (Bool-cases (is_none self.task_queue || is_none self.workflow_id)) [
  | inl missing ↦ inr (configuration_of (validate_typed self) (rw missing tt))
  | inr present ↦ elim (Bool-cases (is_none self.input)) [
    | inl absent ↦ inr (configuration_of (validate_typed self) (rw (present, absent) tt))
    | inr given ↦ elim (Bool-cases (has_trigger self.spec)) [
      | inr idle ↦ inr (configuration_of (validate_typed self) (rw (present, given, idle) tt))
      | inl triggered ↦
          let (p, q) = or_false (is_none self.task_queue) (is_none self.workflow_id) present in
          let (task_queue, a) = some_of self.task_queue p in
          let (workflow_id, b) = some_of self.workflow_id q in
          let (value, c) = some_of self.input given in
          inl (
            rw (present, given, triggered) refl,
            start_typed value task_queue workflow_id,
            rw (a, b, c) refl,
          )
    ]
  ]
]
