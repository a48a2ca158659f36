-- ===== src/Retry/Calls.antt =====
-- crates/altair-retry/src/retry.rs: how often a retry runs its operation.
use altair_rs.Prelude.{
  ℕ, zero, suc, ◌+◌, ◌%◌, ◌^◌, ◌<◌, ◌≤◌, ◌≡◌, sym, ap, ◌∙◌, true, List, [], ◌∷◌, length, arith,
}
use altair_rs.Prelude.Text.{String}
use altair_rs.Prelude.Async.{Fut, Result, err}
use altair_rs.Retry.Error.{Error, exhausted, cancelled}
use altair_rs.Retry.Config.{Floats, Config}
use altair_rs.Retry.Loop.{Runtime, backoff_builder, is_stopped, pause, retry}
use altair_rs.Retry.Attempts.{
  Tried, Ends, cancelled_before, succeeded, refused, gave_up, cancelled_after, paused, retry_lem,
}

-- The reasons in a failed answer.
same_failure :
    {T B : Type 0} (name name' : String) (n n' : ℕ) (b b' : B)
    → ◌≡◌ {A = Result T (Error B)} (err (exhausted name n b)) (err (exhausted name' n' b'))
    → (n ≡ n') × (name ≡ name')
same_failure name name' n n' b b' h = (cc, cc)

module _ {W K F S B T E : Type 0} (rt : Runtime W K S B) (into : E → B) (op : Fut W (Result T E))
    (config : Config K F)
    -- A counter of the calls, in the state.
    (calls : W → ℕ) (counts : (w : W) → calls (op w).1 ≡ suc (calls w))
    (rests : (delay : ℕ) (w : W)
      → calls (pause rt config.cancellation_token delay w).1 ≡ calls w) where
  calls-Tried :
      (n : ℕ) (delays : List ℕ) (w : W) (left : List ℕ) (w' : W)
      → Tried rt into op config n delays w left w'
      → calls w' ≡ calls w + n
  calls-Tried zero delays w left w' (_, same) = ap calls same ∙ omega arith
  calls-Tried (suc n) [] w left w' h = absurd h
  calls-Tried (suc n) (delay ∷ delays) w left w' (_, _, _, h) = omega (
    arith,
    calls-Tried n delays (paused rt into op config delay w).1 left w' h,
    rests delay (op w).1,
    counts w,
  )

  calls-Ends :
      (made : ℕ) (left : List ℕ) (w : W) (answer : Result T (Error B) × W)
      → Ends rt into op config made left w answer
      → calls answer.1 ≤ suc (calls w)
  calls-Ends made left w answer (cancelled_before stopped same) =
      omega (arith, ap (λ a. calls a.1) same)
  calls-Ends made left w answer (succeeded v running done same) =
      omega (arith, ap (λ a. calls a.1) same, counts w)
  calls-Ends made left w answer (refused e perm running fails kind same) =
      omega (arith, ap (λ a. calls a.1) same, counts w)
  calls-Ends made left w answer (gave_up b running fails none_left same) =
      omega (arith, ap (λ a. calls a.1) same, counts w)
  calls-Ends made left w answer (cancelled_after delay rest b running fails more cut same) =
      omega (arith, ap (λ a. calls a.1) same, counts w, rests delay (op w).1)

  -- A retry calls its operation at most once more than `max_retries`.
  pub retry_calls :
      (floats : Floats F S) (w : W)
      → config.max_retries < 2 ^ 32
      → calls (retry rt into op floats config w).1 ≤ calls w + (config.max_retries + 1)
  retry_calls floats w fits =
      let b = backoff_builder floats config in
      let (n, left, w', tried, total, ends) = retry_lem rt into op config floats w fits in
      let tries = calls-Tried n (rt.delays b w) w left w' tried in
      let last = calls-Ends (0 + n) left w' (retry rt into op floats config w) ends in
      omega (arith, tries, last, total, rt.length-delays b w)

  exhausted-Ends :
      (made : ℕ) (left : List ℕ) (w : W) (answer : Result T (Error B) × W) (name : String)
      (attempts : ℕ) (source : B)
      → Ends rt into op config made left w answer
      → answer.0 ≡ err (exhausted name attempts source)
      → (left ≡ [])
        × (attempts ≡ (made + 1) % 2 ^ 32)
        × (name ≡ config.name)
        × (calls answer.1 ≡ suc (calls w))
  exhausted-Ends made left w answer name attempts source (cancelled_before stopped same) h =
      let e = sym (ap (λ a. a.0) same) ∙ h in cc
  exhausted-Ends made left w answer name attempts source (succeeded v running done same) h =
      let e = sym (ap (λ a. a.0) same) ∙ h in cc
  exhausted-Ends made left w answer name attempts source (refused e perm running fails kind same)
        h =
      let e = sym (ap (λ a. a.0) same) ∙ h in cc
  exhausted-Ends made left w answer name attempts source (gave_up b running fails none_left same)
        h =
      let (count, named) =
        same_failure name config.name attempts ((made + 1) % 2 ^ 32) source b
          (sym h ∙ ap (λ a. a.0) same) in
      (none_left, count, named, ap (λ a. calls a.1) same ∙ counts w)
  exhausted-Ends made left w answer name attempts source
        (cancelled_after delay rest b running fails more cut same) h =
      let e = sym (ap (λ a. a.0) same) ∙ h in cc

  -- The attempts that `Error::Exhausted` reports are one more than `max_retries`, and as many as the
  -- calls of the operation, where they fit in a `u32`; and the name is that of the configuration.
  pub retry_exhausted :
      (floats : Floats F S) (w : W) (name : String) (attempts : ℕ) (source : B)
      → config.max_retries + 1 < 2 ^ 32
      → (retry rt into op floats config w).0 ≡ err (exhausted name attempts source)
      → (attempts ≡ config.max_retries + 1)
        × (calls (retry rt into op floats config w).1 ≡ calls w + attempts)
        × (name ≡ config.name)
  retry_exhausted floats w name attempts source fits h =
      let b = backoff_builder floats config in
      let (n, left, w', tried, total, ends) = retry_lem rt into op config floats w (omega arith) in
      let tries = calls-Tried n (rt.delays b w) w left w' tried in
      let (nothing, count, named, last) =
        exhausted-Ends (0 + n) left w' (retry rt into op floats config w) name attempts source ends
          h in
      let all : n ≡ config.max_retries =
        omega (arith, total, ap length nothing, rt.length-delays b w) in
      let reported : attempts ≡ config.max_retries + 1 = omega (arith, count, all) in
      (reported, omega (arith, reported, all, tries, last), named)

  stopped-Ends :
      (made : ℕ) (left : List ℕ) (w : W) (answer : Result T (Error B) × W)
      → Ends rt into op config made left w answer
      → is_stopped rt config.cancellation_token w ≡ true
      → answer ≡ (err (cancelled config.name), w)
  stopped-Ends made left w answer (cancelled_before stopped same) h = same
  stopped-Ends made left w answer (succeeded v running done same) h = cc
  stopped-Ends made left w answer (refused e perm running fails kind same) h = cc
  stopped-Ends made left w answer (gave_up b running fails none_left same) h = cc
  stopped-Ends made left w answer (cancelled_after delay rest b running fails more cut same) h = cc

  -- Where the token is cancelled during the first attempt, and a delay leaves it so, the operation is
  -- not called again.
  pub retry_cancelled :
      (floats : Floats F S) (w : W)
      → config.max_retries < 2 ^ 32
      → is_stopped rt config.cancellation_token (op w).1 ≡ true
      → ((delay : ℕ) (w : W)
          → is_stopped rt config.cancellation_token w ≡ true
          → is_stopped rt config.cancellation_token (pause rt config.cancellation_token delay w).1
            ≡ true)
      → calls (retry rt into op floats config w).1 ≤ calls w + 1
  retry_cancelled floats w fits stopped stays =
      let (n, left, w', tried, total, ends) = retry_lem rt into op config floats w fits in
      at_most_once n (rt.delays (backoff_builder floats config) w) left w' tried ends
    where
      at_most_once :
          (n : ℕ) (delays left : List ℕ) (w' : W)
          → Tried rt into op config n delays w left w'
          → Ends rt into op config (0 + n) left w' (retry rt into op floats config w)
          → calls (retry rt into op floats config w).1 ≤ calls w + 1
      at_most_once zero delays left w' (_, same) ends =
          omega (
            arith,
            calls-Ends (0 + 0) left w' (retry rt into op floats config w) ends,
            ap calls same,
          )
      at_most_once (suc n) [] left w' tried ends = absurd tried
      at_most_once (suc zero) (delay ∷ delays) left w' (_, _, _, (_, same)) ends =
          let still = stays delay (op w).1 stopped in
          let over =
            stopped-Ends (0 + 1) left w' (retry rt into op floats config w) ends
              (ap (is_stopped rt config.cancellation_token) same ∙ still) in
          omega (arith, ap (λ a. calls a.1) over, ap calls same, counts w, rests delay (op w).1)
      at_most_once (suc (suc n)) (delay ∷ []) left w' (_, _, _, tried) ends = absurd tried
      at_most_once (suc (suc n)) (delay ∷ d ∷ delays) left w' (_, _, _, (running, _, _, _)) ends =
          let still = stays delay (op w).1 stopped in cc
