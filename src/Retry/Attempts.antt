-- ===== src/Retry/Attempts.antt =====
-- crates/altair-retry/src/retry.rs: which attempts a retry makes, and how it ends.
use mathlib.Core.Path.{subst}
use altair_rs.Prelude.{
  ℕ, zero, suc, ◌+◌, ◌%◌, ◌^◌, ◌<◌, ◌≡◌, refl, sym, ◌∙◌, Bool, true, false, List, [], ◌∷◌, length,
  ◌⊎◌, inl, inr, arith, Bool-cases,
}
use altair_rs.Prelude.Text.{String}
use altair_rs.Prelude.Async.{Fut, Result, ok, err}
use altair_rs.Retry.Error.{Error, exhausted, permanent, cancelled, PermanentError}
use altair_rs.Retry.Config.{Floats, Config}
use altair_rs.Retry.Loop.{
  Runtime, backoff_builder, is_stopped, pause, on_failure, on_outcome, attempt_once,
  unless_cancelled, add_attempt, retry_loop, retry,
}

kind-cases : {A B : Type 0} (s : A ⊎ B) → ((a : A) × (s ≡ inl a)) ⊎ ((b : B) × (s ≡ inr b))
kind-cases (inl a) = inl (a, refl)
kind-cases (inr b) = inr (b, refl)

one_more : (made n : ℕ) → made + 1 < 2 ^ 32 → add_attempt made + n ≡ made + suc n
one_more made n fits = omega arith

fits_next : (made n : ℕ) → made + suc n < 2 ^ 32 → add_attempt made + n < 2 ^ 32
fits_next made n fits = omega arith

module _ {W T B : Type 0} (name : String) (next : Fut W (Result T (Error B))) where
  unless_cancelled-true :
      (p : Bool × W) → p.0 ≡ true → unless_cancelled name next p ≡ (err (cancelled name), p.1)
  unfolding unless_cancelled
  unless_cancelled-true (true, w) h = refl
  unless_cancelled-true (false, w) h = cc

  unless_cancelled-false : (p : Bool × W) → p.0 ≡ false → unless_cancelled name next p ≡ next p.1
  unfolding unless_cancelled
  unless_cancelled-false (false, w) h = refl
  unless_cancelled-false (true, w) h = cc

module _ {W K F S B T E : Type 0} (rt : Runtime W K S B) (into : E → B) (op : Fut W (Result T E))
    (config : Config K F) where
  -- The token, if there is one, is cancelled.
  abbrev pub IsStopped : W → Type 0
  IsStopped w = is_stopped rt config.cancellation_token w ≡ true

  abbrev pub IsOpen : W → Type 0
  IsOpen w = is_stopped rt config.cancellation_token w ≡ false

  -- The operation fails with an error that is not permanent.
  abbrev pub Fails : W → B → Type 0
  Fails w b = (e : E) × ((op w).0 ≡ err e) × (rt.downcast (into e) ≡ inr b)

  -- The sleep after the attempt that starts in a state.
  abbrev pub paused : ℕ → W → Bool × W
  paused delay w = pause rt config.cancellation_token delay (op w).1

  -- So many attempts fail one after the other, each with the next delay after it.
  abbrev pub Tried : ℕ → List ℕ → W → List ℕ → W → Type 0
  Tried zero delays w left w' = (left ≡ delays) × (w' ≡ w)
  Tried (suc n) [] w left w' = ⊥
  Tried (suc n) (delay ∷ delays) w left w' =
      IsOpen w
      × ((b : B) × Fails w b)
      × ((paused delay w).0 ≡ false)
      × Tried n delays (paused delay w).1 left w'

  -- The ways in which a retry ends after the failed attempts, with delays left.
  pub data Ends (attempts : ℕ) (left : List ℕ) (w : W) (answer : Result T (Error B) × W)
      : Type 0 where
    cancelled_before :
        IsStopped w → answer ≡ (err (cancelled config.name), w) → Ends attempts left w answer
    succeeded :
        (v : T)
        → IsOpen w
        → (op w).0 ≡ ok v
        → answer ≡ (ok v, (op w).1)
        → Ends attempts left w answer
    refused :
        (e : E) (perm : PermanentError B)
        → IsOpen w
        → (op w).0 ≡ err e
        → rt.downcast (into e) ≡ inl perm
        → answer ≡ (err (permanent config.name perm.inner), (op w).1)
        → Ends attempts left w answer
    gave_up :
        (b : B)
        → IsOpen w
        → Fails w b
        → left ≡ []
        → answer ≡ (err (exhausted config.name ((attempts + 1) % 2 ^ 32) b), (op w).1)
        → Ends attempts left w answer
    cancelled_after :
        (delay : ℕ) (rest : List ℕ) (b : B)
        → IsOpen w
        → Fails w b
        → left ≡ delay ∷ rest
        → (paused delay w).0 ≡ true
        → answer ≡ (err (cancelled config.name), (paused delay w).1)
        → Ends attempts left w answer

  -- What a pass of the loop makes of an outcome.
  abbrev Settles :
      Result T E → W → (B → Fut W (Result T (Error B))) → Result T (Error B) × W → Type 0
  Settles outcome w next answer =
      ((v : T) × (outcome ≡ ok v) × (answer ≡ (ok v, w)))
      ⊎ (((e : E) × (perm : PermanentError B) × (outcome ≡ err e)
            × (rt.downcast (into e) ≡ inl perm)
            × (answer ≡ (err (permanent config.name perm.inner), w)))
          ⊎ ((e : E) × (b : B) × (outcome ≡ err e)
              × (rt.downcast (into e) ≡ inr b)
              × (answer ≡ next b w)))

  on_outcome_lem :
      (next : B → Fut W (Result T (Error B))) (outcome : Result T E) (w : W)
      → Settles outcome w next (on_outcome rt into config.name next outcome w)
  unfolding on_outcome on_failure
  on_outcome_lem next (ok v) w = inl (v, refl, refl)
  on_outcome_lem next (err e) w = elim (kind-cases (rt.downcast (into e))) [
    | inl (perm, same) ↦ inr (inl (e, perm, refl, same, rw same))
    | inr (b, same) ↦ inr (inr (e, b, refl, same, rw same))
  ]

  pass_lem :
      (next : B → Fut W (Result T (Error B))) (w : W)
      → (IsStopped w × (attempt_once rt into op config next w ≡ (err (cancelled config.name), w)))
        ⊎ (IsOpen w × Settles (op w).0 (op w).1 next (attempt_once rt into op config next w))
  unfolding attempt_once
  pass_lem next w = elim (Bool-cases (is_stopped rt config.cancellation_token w)) [
    | inl stopped ↦ inl (stopped, rw stopped)
    | inr running ↦ inr (running, rw running (on_outcome_lem next (op w).0 (op w).1))
  ]

  -- So many failed attempts, and an end.
  abbrev pub Retries : List ℕ → ℕ → W → Result T (Error B) × W → Type 0
  Retries delays made w answer =
      (n : ℕ) × (left : List ℕ) × (w' : W) × Tried n delays w left w'
      × (n + length left ≡ length delays)
      × Ends (made + n) left w' answer

  ends_now :
      (delays : List ℕ) (made : ℕ) (w : W) (answer : Result T (Error B) × W)
      → Ends made delays w answer
      → Retries delays made w answer
  ends_now delays made w answer h =
      let none_yet : made ≡ made + 0 = omega arith in
      (0, delays, w, (refl, refl), omega arith, subst (λ n. Ends n delays w answer) none_yet h)

  retry_loop_lem :
      (delays : List ℕ) (made : ℕ) (w : W)
      → made + length delays < 2 ^ 32
      → Retries delays made w (retry_loop rt into op config delays made w)
  unfolding retry_loop unless_cancelled
  retry_loop_lem [] made w fits =
      ends_now [] made w _
        (elim (pass_lem (λ boxed w. (err (exhausted config.name (add_attempt made) boxed), w)) w) [
          | inl (stopped, same) ↦ cancelled_before stopped same
          | inr (running, inl (v, done, same)) ↦ succeeded v running done same
          | inr (running, inr (inl (e, perm, fails, kind, same))) ↦
              refused e perm running fails kind same
          | inr (running, inr (inr (e, b, fails, kind, same))) ↦
              gave_up b running (e, fails, kind) refl same
        ])
  retry_loop_lem (delay ∷ delays) made w fits =
      elim (pass_lem
        (λ boxed w.
          unless_cancelled config.name (retry_loop rt into op config delays (add_attempt made))
            (pause rt config.cancellation_token delay w))
        w) [
          | inl (stopped, same) ↦ ends_now (delay ∷ delays) made w _ (cancelled_before stopped same)
          | inr (running, inl (v, done, same)) ↦
              ends_now (delay ∷ delays) made w _ (succeeded v running done same)
          | inr (running, inr (inl (e, perm, fails, kind, same))) ↦
              ends_now (delay ∷ delays) made w _ (refused e perm running fails kind same)
          | inr (running, inr (inr (e, b, fails, kind, same))) ↦
              elim (Bool-cases (paused delay w).0) [
                | inl cut ↦ ends_now (delay ∷ delays) made w _ (
                    cancelled_after delay delays b running (e, fails, kind) refl cut
                      (same
                        ∙ unless_cancelled-true config.name
                            (retry_loop rt into op config delays (add_attempt made))
                            (paused delay w) cut))
                | inr slept ↦
                    let (n, left, w', tried, total, ends) =
                      retry_loop_lem delays (add_attempt made) (paused delay w).1
                        (fits_next made (length delays) fits) in
                    let shift : add_attempt made + n ≡ made + suc n =
                      one_more made n (omega arith) in
                    (
                      suc n,
                      left,
                      w',
                      (running, (b, (e, fails, kind)), slept, tried),
                      omega arith,
                      subst (λ a. Ends (made + suc n) left w' a)
                          (sym (
                            same
                            ∙ unless_cancelled-false config.name
                                (retry_loop rt into op config delays (add_attempt made))
                                (paused delay w) slept))
                          (subst
                            (λ m. Ends m left w' (
                              retry_loop rt into op config delays (add_attempt made)
                                (paused delay w).1))
                            shift ends),
                    )
              ]
        ]

  -- Where the attempts fit in a `u32`, a retry tries the operation again as long as it fails with an
  -- error that is not permanent, with one delay of the backoff after each such attempt, and ends with
  -- the first of: the cancelled token before an attempt, a success, a permanent error, the failure after
  -- which no delay is left, the cancelled token in a delay.
  pub retry_lem :
      (floats : Floats F S) (w : W)
      → config.max_retries < 2 ^ 32
      → Retries (rt.delays (backoff_builder floats config) w) 0 w (retry rt into op floats config w)
  unfolding retry
  retry_lem floats w fits =
      let delays = rt.delays (backoff_builder floats config) w in
      let many = rt.length-delays (backoff_builder floats config) w in
      retry_loop_lem delays 0 w (omega (arith, many))
