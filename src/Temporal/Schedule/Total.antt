-- ===== src/Temporal/Schedule/Total.antt =====
-- crates/altair-temporal/src/schedule: the runs that end without a panic of `expect`.
use altair_rs.Prelude.{◌≡◌, refl, inl, inr, Bool-cases, some}
use altair_rs.Prelude.Text.{String}
use altair_rs.Prelude.Async.{ok, err}
use altair_rs.Temporal.Error.{
  Result, connect_failed, client_failed, worker_failed, schedule_failed, configuration,
}
use altair_rs.Temporal.Schedule.{
  Schedule, CreateOptions, Schedules, Run, has_trigger, options_of, create, update,
  create_or_update, send_create, or_update, as_schedule_error, apply_spec_update,
}
use altair_rs.Temporal.Schedule.Typed.{
  TypedSchedule, create_typed, update_typed, create_or_update_typed,
}
use altair_rs.Temporal.Schedule.Valid.{validate_schedule_lem, validate_typed_lem}

-- The run answers, it does not panic.
abbrev pub Returns : {W B : Type 0} → Run W B → Type 0
Returns {W = W} {B = B} run = (r : Result (Unit {0}) B String × W) × (run ≡ some r)

module _ {W B I U : Type 0} (client : Schedules W B I U) (id : String) where
  -- The call of a server does not panic on options that are there.
  Returns-send_create : (o : CreateOptions I) (w : W) → Returns (send_create client id (some o) w)
  Returns-send_create o w = (as_schedule_error (client.create_schedule id o w), refl)

  Returns-or_update :
      (r : Result (Unit {0}) B String × W) (fallback : W → Run W B)
      → ((w1 : W) → Returns (fallback w1))
      → Returns (or_update (some r) fallback)
  Returns-or_update (ok _, w1) fallback falls = (_, refl)
  Returns-or_update (err (schedule_failed source), w1) fallback falls = falls w1
  Returns-or_update (err (connect_failed host source), w1) fallback falls = (_, refl)
  Returns-or_update (err (client_failed source), w1) fallback falls = (_, refl)
  Returns-or_update (err (worker_failed source), w1) fallback falls = (_, refl)
  Returns-or_update (err (configuration text), w1) fallback falls = (_, refl)

  Returns-create : (self : Schedule) (w : W) → Returns (create client id self w)
  unfolding create
  Returns-create self w = elim (validate_schedule_lem {B = B} {I = I} self) [
    | inr (text, refused) ↦ rw refused ((err (configuration text), w), refl)
    | inl (valid, action, given) ↦
        rw (valid, given) (Returns-send_create (options_of self.spec action) w)
  ]

  Returns-create_typed : (self : TypedSchedule I) (w : W) → Returns (create_typed client id self w)
  unfolding create_typed
  Returns-create_typed self w = elim (validate_typed_lem {B = B} {I = I} self) [
    | inr (text, refused) ↦ rw refused ((err (configuration text), w), refl)
    | inl (valid, action, given) ↦
        rw (valid, given) (Returns-send_create (options_of self.spec action) w)
  ]

  Returns-update : (self : Schedule) (w : W) → Returns (update client id self w)
  unfolding update
  Returns-update self w = elim (validate_schedule_lem {B = B} {I = I} self) [
    | inr (text, refused) ↦ rw refused ((err (configuration text), w), refl)
    | inl (valid, _, _) ↦ rw valid (apply_spec_update client id self.spec w, refl)
  ]

  Returns-update_typed : (self : TypedSchedule I) (w : W) → Returns (update_typed client id self w)
  unfolding update_typed
  Returns-update_typed self w = elim (Bool-cases (has_trigger self.spec)) [
    | inl triggered ↦ rw triggered (apply_spec_update client id self.spec w, refl)
    | inr idle ↦ rw idle (_, refl)
  ]

  -- Whatever the server answers, no operation of a builder by name or of a typed builder panics:
  -- the parts that `expect` takes are there once the builder is validated.
  pub operations_return :
      (self : Schedule) (typed : TypedSchedule I) (w : W)
      → Returns (create client id self w)
        × Returns (update client id self w)
        × Returns (create_or_update client id self w)
        × Returns (create_typed client id typed w)
        × Returns (update_typed client id typed w)
        × Returns (create_or_update_typed client id typed w)
  unfolding create_or_update create_or_update_typed
  operations_return self typed w =
      let (r, created) = Returns-create self w in
      let (q, typed_created) = Returns-create_typed typed w in
      (
        (r, created),
        Returns-update self w,
        rw created (Returns-or_update r (update client id self) (Returns-update self)),
        (q, typed_created),
        Returns-update_typed typed w,
        rw typed_created (
            Returns-or_update q (λ w1. some (apply_spec_update client id typed.spec w1))
              (λ w1. (_, refl))),
      )
