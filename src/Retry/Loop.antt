-- ===== src/Retry/Loop.antt =====
-- crates/altair-retry/src/retry.rs. The crates backon and tokio are the interface `Runtime`; an
-- operation is a step on the state `W` outside of the crate.
use altair_rs.Prelude.{
  ℕ, ◌+◌, ◌%◌, ◌^◌, ◌≡◌, Bool, true, false, Option, none, some, List, [], ◌∷◌, length, ◌⊎◌, inl,
  inr, if◌then◌else◌,
}
use altair_rs.Prelude.Text.{String}
use altair_rs.Prelude.Async.{Fut, Result, ok, err}
use altair_rs.Retry.Error.{Error, exhausted, permanent, cancelled, PermanentError}
use altair_rs.Retry.Config.{Floats, Config}

-- What an `ExponentialBuilder` of backon is given.
pub record Backoff (S : Type 0) : Type 0 where
  pub min_delay : ℕ
  pub max_delay : ℕ
  pub factor : S
  pub max_times : ℕ
  pub is_jittered : Bool

pub record Runtime (W K S B : Type 0) : Type 0 where
  -- The delays that the iterator of a backoff gives: as many as `with_max_times` says.
  pub delays : Backoff S → W → List ℕ
  pub length-delays : (b : Backoff S) (w : W) → length (delays b w) ≡ b.max_times
  -- `is_cancelled` of a token.
  pub is_cancelled : K → W → Bool
  pub sleep : ℕ → W → W
  -- `select!` between a sleep and `cancelled` of a token: whether the token came first.
  pub sleep_or_cancelled : K → ℕ → Fut W Bool
  -- `downcast` to `PermanentError`: the error itself where it is of another type.
  pub downcast : B → PermanentError B ⊎ B
  pub downcast_other : (b other : B) → downcast b ≡ inr other → other ≡ b

abbrev pub backoff_builder : {K F S : Type 0} → Floats F S → Config K F → Backoff S
backoff_builder floats config = record {
  min_delay = config.initial_interval;
  max_delay = config.max_interval;
  factor = floats.as_f32 config.multiplier;
  max_times = config.max_retries;
  is_jittered = config.jitter;
}

module _ {W K S B : Type 0} (rt : Runtime W K S B) where
  -- The test before each attempt.
  unfoldable pub is_stopped : Option K → W → Bool
  is_stopped none w = false
  is_stopped (some token) w = rt.is_cancelled token w

  -- The sleep after a failure, and whether it was cut short.
  unfoldable pub pause : Option K → ℕ → Fut W Bool
  pause none delay w = (false, rt.sleep delay w)
  pause (some token) delay w = rt.sleep_or_cancelled token delay w

module _ {W B T : Type 0} where
  -- What follows on an attempt that fails: its error, unless it is permanent, goes to `next`.
  unfoldable pub on_failure :
      String → (B → Fut W (Result T (Error B))) → PermanentError B ⊎ B → Fut W (Result T (Error B))
  on_failure name next (inl perm) w = (err (permanent name perm.inner), w)
  on_failure name next (inr other) w = next other w

  unfoldable pub unless_cancelled :
      String → Fut W (Result T (Error B)) → Bool × W → Result T (Error B) × W
  unless_cancelled name next (true, w) = (err (cancelled name), w)
  unless_cancelled name next (false, w) = next w

-- `attempt += 1` on a `u32`, which wraps where overflow is not checked.
abbrev pub add_attempt : ℕ → ℕ
add_attempt attempt = (attempt + 1) % 2 ^ 32

module _ {W K S B T E : Type 0} (rt : Runtime W K S B) (into : E → B) where
  unfoldable pub on_outcome :
      String → (B → Fut W (Result T (Error B))) → Result T E → Fut W (Result T (Error B))
  unfolding on_failure
  on_outcome name next (ok v) w = (ok v, w)
  on_outcome name next (err e) w = on_failure name next (rt.downcast (into e)) w

module _ {W K F S B T E : Type 0} (rt : Runtime W K S B) (into : E → B)
    (op : Fut W (Result T E)) where
  -- The body of the loop, up to the next delay.
  unfoldable pub attempt_once :
      Config K F → (B → Fut W (Result T (Error B))) → Fut W (Result T (Error B))
  unfolding is_stopped on_outcome
  attempt_once config next w =
      if is_stopped rt config.cancellation_token w
      then (err (cancelled config.name), w)
      else (let (outcome, w') = op w in on_outcome rt into config.name next outcome w')

  -- The loop, on the delays that are left.
  unfoldable pub retry_loop : Config K F → List ℕ → ℕ → Fut W (Result T (Error B))
  unfolding attempt_once pause unless_cancelled
  retry_loop config [] attempt =
      attempt_once config λ boxed w. (err (exhausted config.name (add_attempt attempt) boxed), w)
  retry_loop config (delay ∷ delays) attempt = attempt_once config λ boxed w.
      unless_cancelled config.name (retry_loop config delays (add_attempt attempt))
        (pause rt config.cancellation_token delay w)

  unfoldable pub retry : Floats F S → Config K F → Fut W (Result T (Error B))
  unfolding retry_loop
  retry floats config w = retry_loop config (rt.delays (backoff_builder floats config) w) 0 w
