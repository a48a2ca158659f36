-- ===== src/Temporal/Activity.antt =====
-- crates/altair-temporal/src/activity.rs. `E` is the type of errors; its name is a parameter.
use altair_rs.Prelude.{Bool}
use altair_rs.Prelude.Text.{String}

-- `ApplicationFailure`, in an `ActivityError::application`.
pub record ApplicationFailure (E : Type 0) : Type 0 where
  pub source : E
  pub type_name : String
  pub non_retryable : Bool

abbrev pub classify_error : {E : Type 0} → String → E → (E → Bool) → ApplicationFailure E
classify_error type_name error is_permanent = record {
  source = error;
  type_name = type_name;
  non_retryable = is_permanent error;
}
