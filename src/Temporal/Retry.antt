-- ===== src/Temporal/Retry.antt =====
-- crates/altair-temporal/src/retry.rs. A `Duration` is its number of nanoseconds, and `F` is the
-- type of `f64`.
pub mod Policy
use altair_rs.Prelude.{
  ℕ, ◌/◌, ◌%◌, ◌^◌, ◌-◌, Bool, true, ◌&&◌, Option, some, List, [], ◌∷◌, ◌++◌, leb, ltb, ◌==◌,
  if◌then◌else◌,
}
use altair_rs.Prelude.Text.{String, ◌+++◌}
use altair_rs.Prelude.Async.{ok, err}
use altair_rs.Retry.Config.{from_secs}
use altair_rs.Temporal.Error.{Result, configuration}

-- What the crate asks of floating-point numbers, and how durations print.
pub record Numbers (F : Type 0) : Type 0 where
  pub is_finite : F → Bool
  pub is_positive : F → Bool
  pub two : F
  pub print : F → String
  pub debug : ℕ → String

-- `prost_wkt_types::Duration`.
pub record ProtoDuration : Type 0 where
  pub seconds : ℕ
  pub nanos : ℕ

-- `RetryPolicy`, a wrapper of the message of the same name.
pub record RetryPolicy (F : Type 0) : Type 0 where
  pub initial_interval : Option ProtoDuration
  pub backoff_coefficient : F
  pub maximum_interval : Option ProtoDuration
  pub maximum_attempts : ℕ
  pub non_retryable_error_types : List String

pub record RetryPolicyBuilder (F : Type 0) : Type 0 where
  pub initial_interval : ℕ
  pub maximum_interval : ℕ
  pub backoff_coefficient : F
  pub max_attempts : ℕ
  pub non_retryable_error_types : List String

-- `TryFrom` into a signed type of `bits` bits, with its largest value where that fails.
abbrev pub saturated : ℕ → ℕ → ℕ
saturated bits n = let most = 2 ^ (bits - 1) - 1 in if leb n most then n else most

unfoldable pub duration_to_proto : ℕ → ProtoDuration
duration_to_proto d = record {
  seconds = saturated 64 (d / 1000000000);
  nanos = saturated 32 (d % 1000000000);
}

module _ {F : Type 0} where
  -- `RetryPolicyBuilder::default`, and `RetryPolicy::builder`.
  abbrev pub default_policy : Numbers F → RetryPolicyBuilder F
  default_policy numbers = record {
    initial_interval = from_secs 1;
    maximum_interval = from_secs 30;
    backoff_coefficient = numbers.two;
    max_attempts = 0;
    non_retryable_error_types = [];
  }

  abbrev pub set_initial_interval : ℕ → RetryPolicyBuilder F → RetryPolicyBuilder F
  set_initial_interval d self = record self { initial_interval = d }

  abbrev pub set_maximum_interval : ℕ → RetryPolicyBuilder F → RetryPolicyBuilder F
  set_maximum_interval d self = record self { maximum_interval = d }

  abbrev pub set_backoff_coefficient : F → RetryPolicyBuilder F → RetryPolicyBuilder F
  set_backoff_coefficient c self = record self { backoff_coefficient = c }

  abbrev pub set_max_attempts : ℕ → RetryPolicyBuilder F → RetryPolicyBuilder F
  set_max_attempts n self = record self { max_attempts = n }

  abbrev pub add_non_retryable : String → RetryPolicyBuilder F → RetryPolicyBuilder F
  add_non_retryable error_type self = record self {
    non_retryable_error_types = self.non_retryable_error_types ++ (error_type ∷ []);
  }

  -- The message that `build` answers.
  abbrev pub policy_of : RetryPolicyBuilder F → RetryPolicy F
  policy_of self = record {
    initial_interval = some (duration_to_proto self.initial_interval);
    backoff_coefficient = self.backoff_coefficient;
    maximum_interval = some (duration_to_proto self.maximum_interval);
    maximum_attempts = saturated 32 self.max_attempts;
    non_retryable_error_types = self.non_retryable_error_types;
  }

  -- `RetryPolicyBuilder::build`.
  unfoldable pub build_policy :
      {B : Type 0} → Numbers F → RetryPolicyBuilder F → Result (RetryPolicy F) B String
  build_policy numbers self =
      if numbers.is_finite self.backoff_coefficient && numbers.is_positive self.backoff_coefficient
      then if self.initial_interval == 0
        then err (configuration "initial_interval must be > 0")
        else if self.maximum_interval == 0
        then err (configuration "maximum_interval must be > 0")
        else if ltb self.maximum_interval self.initial_interval
        then err (
            configuration (
              ◌+++◌ "initial_interval (" (
                ◌+++◌ (numbers.debug self.initial_interval) (
                  ◌+++◌ ") must be <= maximum_interval ("
                    (◌+++◌ (numbers.debug self.maximum_interval) ")")))))
        else ok (policy_of self)
      else err (
          configuration (
            ◌+++◌ "backoff_coefficient must be finite and > 0.0, got "
              (numbers.print self.backoff_coefficient)))
