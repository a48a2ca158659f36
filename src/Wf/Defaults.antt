-- ===== src/Wf/Defaults.antt =====
-- crates/altair-wf/src/helpers.rs: the options of an activity and the retry policy that a caller need
-- not give. `O` is the type of the options of the SDK, and a panic is none.
use altair_rs.Prelude.{ℕ, ◌*◌, ◌≡◌, refl, true, Option, none, some, ◌==◌, if◌then◌else◌}
use altair_rs.Prelude.Async.{Result as AsyncResult, ok, err}
use altair_rs.Retry.Config.{from_secs}
use altair_rs.Temporal.Retry.{
  Numbers, RetryPolicy, RetryPolicyBuilder, default_policy, set_initial_interval,
  set_maximum_interval, set_backoff_coefficient, set_max_attempts, build_policy, policy_of,
}

-- The builder of `ActivityOptions`, whose methods end in `build`: the start-to-close timeout, the
-- heartbeat timeout if there is one, and the policy.
pub record OptionsSdk (F O : Type 0) : Type 0 where
  pub activity_options : ℕ → Option ℕ → RetryPolicy F → O

abbrev pub default_start_to_close_mins : ℕ
default_start_to_close_mins = 10

abbrev pub default_initial_interval_ms : ℕ
default_initial_interval_ms = 1000

abbrev pub default_max_interval_secs : ℕ
default_max_interval_secs = 60

abbrev pub default_max_retry_attempts : ℕ
default_max_retry_attempts = 3

-- `expect`.
abbrev pub expected : {A E : Type 0} → AsyncResult A E → Option A
expected (ok a) = some a
expected (err e) = none

module _ {F : Type 0} (numbers : Numbers F) where
  -- The builder that `default_retry_policy` fills.
  abbrev pub retry_builder : RetryPolicyBuilder F
  retry_builder = set_max_attempts default_max_retry_attempts (
      set_backoff_coefficient numbers.two (
        set_maximum_interval (from_secs default_max_interval_secs)
          (set_initial_interval (default_initial_interval_ms * 1000000) (default_policy numbers))))

  unfoldable pub default_retry_policy : (B : Type 0) → Option (RetryPolicy F)
  unfolding build_policy
  default_retry_policy B = expected (build_policy {B = B} numbers retry_builder)

  module _ {O : Type 0} (sdk : OptionsSdk F O) where
    abbrev pub options_with_policy : Option (RetryPolicy F) → Option O
    options_with_policy none = none
    options_with_policy (some retry) =
        some (sdk.activity_options (from_secs (default_start_to_close_mins * 60)) none retry)

    unfoldable pub default_activity_options : (B : Type 0) → Option O
    unfolding default_retry_policy
    default_activity_options B = options_with_policy (default_retry_policy B)

    unfoldable pub activity_options_with : ℕ → ℕ → RetryPolicy F → O
    activity_options_with start_to_close heartbeat retry =
        if heartbeat == 0
        then sdk.activity_options start_to_close none retry
        else sdk.activity_options start_to_close (some heartbeat) retry

  -- Where two is finite and positive, the constants make a policy and nothing panics; the options
  -- are those with a timeout of ten minutes, no heartbeat and the policy.
  pub default_activity_options_lem :
      {O : Type 0} (B : Type 0) (sdk : OptionsSdk F O)
      → numbers.is_finite numbers.two ≡ true
      → numbers.is_positive numbers.two ≡ true
      → (default_retry_policy B ≡ some (policy_of retry_builder))
        × (default_activity_options sdk B
            ≡ some (activity_options_with sdk (from_secs 600) 0 (policy_of retry_builder)))
  unfolding default_activity_options activity_options_with
  default_activity_options_lem B sdk finite positive =
      (rw (finite, positive) refl, rw (finite, positive) refl)
