-- ===== src/Retry/Tests.antt =====
-- Runs of crates/altair-retry/src/retry.rs, and its theorems at a concrete input. The outside state
-- counts the calls of the operation; a token is cancelled from some number of calls on.
use altair_rs.Prelude.{
  ℕ, zero, suc, ap, ◌+◌, ◌≡◌, refl, ◌∙◌, Bool, true, false, none, some, length, replicate, ◌⊎◌, inl,
  inr, leb, ltb, ◌==◌, if◌then◌else◌, arith,
}
use altair_rs.Prelude.Text.{String}
use altair_rs.Prelude.Async.{Fut, Result, err}
use altair_rs.Retry.Error.{exhausted, permanent, PermanentError}
use altair_rs.Retry.Config.{
  Floats, Config, default_config, with_name, with_max_retries, with_max_interval,
  with_cancellation_token, build,
}
use altair_rs.Retry.Loop.{Runtime, backoff_builder, is_stopped, pause, retry}
use altair_rs.Retry.Attempts.{Retries, retry_lem}

-- Hundredths for `f64`, and for `f32` as well.
abbrev hundredths : Floats ℕ ℕ
hundredths = record {
  is_finite = λ x. true;
  is_positive = λ x. ltb 0 x;
  one_and_half = 150;
  as_f32 = λ x. x;
}

length-replicate : (n d : ℕ) → length (replicate n d) ≡ n
length-replicate zero d = refl
length-replicate (suc n) d = ap suc (length-replicate n d)

abbrev kind : ℕ → Bool → PermanentError ℕ ⊎ ℕ
kind b true = inl record { inner = b }
kind b false = inr b

same_other : (b other : ℕ) (p : Bool) → kind b p ≡ inr other → other ≡ b
same_other b other true h = cc
same_other b other false h = cc

-- The delays are all the first one. An error is a number, where 7 is permanent.
abbrev steady : Runtime ℕ ℕ ℕ ℕ
steady = record {
  delays = λ b w. replicate b.max_times b.min_delay;
  length-delays = λ b w. length-replicate b.max_times b.min_delay;
  is_cancelled = λ calls w. leb calls w;
  sleep = λ delay w. w;
  sleep_or_cancelled = λ calls delay w. (leb calls w, w);
  downcast = λ b. kind b (b == 7);
  downcast_other = λ b other h. same_other b other (b == 7) h;
}

-- The operation fails, with the permanent error at the fourth call.
abbrev flaky : Fut ℕ (Result String ℕ)
flaky w = (err (if w == 3 then 7 else 1), w + 1)

abbrev settings : Config ℕ ℕ
settings = with_max_retries 2 (with_name "fetch" (default_config hundredths))

accepted : build hundredths settings ≡ some settings
unfolding build
accepted = refl

refused : build hundredths (with_max_interval 5 settings) ≡ none
unfolding build
refused = refl

gives_up : retry steady (λ e. e) flaky hundredths settings 0 ≡ (err (exhausted "fetch" 3 1), 3)
unfolding retry
gives_up = refl

stops_at_permanent :
    retry steady (λ e. e) flaky hundredths settings 2 ≡ (err (permanent "fetch" 7), 4)
unfolding retry
stops_at_permanent = refl

retry_lem_example :
    Retries steady
      (λ e. e)
      flaky
      settings
      (steady.delays (backoff_builder hundredths settings) 0)
      0
      0
      (retry steady (λ e. e) flaky hundredths settings 0)
retry_lem_example = retry_lem steady (λ e. e) flaky settings hundredths 0 (omega arith)

counted : (w : ℕ) → (flaky w).1 ≡ suc w
counted w = omega arith

at_rest : (delay w : ℕ) → (pause steady none delay w).1 ≡ w
unfolding pause
at_rest delay w = refl

-- Cancelled from the first call on.
abbrev guarded : Config ℕ ℕ
guarded = with_cancellation_token 1 settings

at_rest_guarded : (delay w : ℕ) → (pause steady (some 1) delay w).1 ≡ w
unfolding pause
at_rest_guarded delay w = refl

stopped : is_stopped steady (some 1) (flaky 0).1 ≡ true
unfolding is_stopped
stopped = refl

stays :
    (delay w : ℕ)
    → is_stopped steady (some 1) w ≡ true
    → is_stopped steady (some 1) (pause steady (some 1) delay w).1 ≡ true
stays delay w h = ap (is_stopped steady (some 1)) (at_rest_guarded delay w) ∙ h
