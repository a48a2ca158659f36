-- ===== src/Temporal/Worker/Shutdown.antt =====
-- crates/altair-temporal/src/worker.rs: how a run ends, and when.
use altair_rs.Prelude.{
  ℕ, ◌+◌, ◌≤◌, ◌<◌, ◌≡◌, refl, ◌⊎◌, inl, inr, Bool, true, leb, leb→le, none, some, arith,
  Bool-cases, Option-cases,
}
use altair_rs.Prelude.Text.{String}
use altair_rs.Prelude.Async.{Fut, Result as AsyncResult, ok, err}
use altair_rs.Temporal.Error.{Result, worker_failed}
use altair_rs.Temporal.Worker.{Worker, Polling, run_error, run_with_shutdown}

-- Documented of tokio: a timeout gives the answer of what ends in time, and otherwise ends once its
-- duration is over. `told` is the token of the worker's shutdown: the handle sets it, which takes no
-- time, and it stays set.
pub record Clock {W B : Type 0} (polling : Polling W B) : Type 0 where
  pub now : W → ℕ
  pub told : W → Bool
  pub timeout_in_time :
      (d : ℕ) (fut : Fut W (AsyncResult (Unit {0}) String)) (w : W)
      → now (fut w).1 ≤ now w + d
      → polling.timeout d fut w ≡ (some (fut w).0, (fut w).1)
  pub timeout_late :
      (d : ℕ) (fut : Fut W (AsyncResult (Unit {0}) String)) (w : W)
      → now w + d < now (fut w).1
      → ((polling.timeout d fut w).0 ≡ none) × (now (polling.timeout d fut w).1 ≡ now w + d)
  pub now-shutdown_handle : (w : W) → now (polling.shutdown_handle w) ≡ now w
  pub told-shutdown_handle : (w : W) → told (polling.shutdown_handle w) ≡ true
  pub told-timeout :
      (d : ℕ) (w : W) → told w ≡ true → told (polling.timeout d polling.drain w).1 ≡ true

module _ {W B : Type 0} (polling : Polling W B) (clock : Clock polling) where
  open clock use {now, told}

  -- An error of the worker is one of the crate, with the worker's text.
  abbrev pub answered : AsyncResult (Unit {0}) String → Result (Unit {0}) B String
  answered (ok _) = ok tt
  answered (err e) = err (worker_failed (polling.boxed e))

  -- From the state in which the shutdown is asked for: the worker is told, and its run goes on. It
  -- ends within the deadline, and its answer is the run's, or the run ends at the deadline with ok.
  abbrev pub Drains : ℕ → W → Result (Unit {0}) B String × W → Type 0
  Drains deadline w run =
      let (res, w') = polling.drain (polling.shutdown_handle w) in
      (told run.1 ≡ true)
      × (((now w' ≤ now w + deadline) × (run ≡ (answered res, w')))
          ⊎ ((now w + deadline < now w') × (run.0 ≡ ok tt) × (now run.1 ≡ now w + deadline)))

  answered_lem : (res : AsyncResult (Unit {0}) String) → run_error polling res ≡ answered res
  answered_lem (ok _) = refl
  answered_lem (err e) = refl

  -- A run ends with the worker's answer, and no shutdown is asked for, where the worker ends first.
  -- Otherwise, when the future resolves, the worker is told to shut down, and its run goes on: it
  -- ends within the drain deadline from then on, and its answer is that of the run, or the run ends
  -- at the deadline, with ok.
  pub run_with_shutdown_lem :
      {R K : Type 0} (self : Worker R K) (w : W)
      → ((res : AsyncResult (Unit {0}) String) × ((polling.select w).0 ≡ some res)
          × (run_with_shutdown polling self w ≡ (answered res, (polling.select w).1)))
        ⊎ (((polling.select w).0 ≡ none)
            × Drains self.drain_deadline (polling.select w).1 (run_with_shutdown polling self w))
  unfolding run_with_shutdown
  run_with_shutdown_lem self w = elim (Option-cases (polling.select w).0) [
    | inr (res, e) ↦ inl (res, e, rw (e, answered_lem res) refl)
    | inl e ↦
        let d = self.drain_deadline in
        let w1 = (polling.select w).1 in
        let w2 = polling.shutdown_handle w1 in
        let same = clock.now-shutdown_handle w1 in
        let kept = clock.told-timeout d w2 (clock.told-shutdown_handle w1) in
        elim (Bool-cases (leb (now (polling.drain w2).1) (now w1 + d))) [
          | inl in_time ↦
              let small : now (polling.drain w2).1 ≤ now w1 + d = leb→le _ _ in_time in
              let fits : now (polling.drain w2).1 ≤ now w2 + d = omega (arith, small, same) in
              let cut = clock.timeout_in_time d polling.drain w2 fits in
              let same_answer = answered_lem (polling.drain w2).0 in
              inr (e, (rw (e, cut) (rw cut at kept), inl (small, rw (e, cut, same_answer) refl)))
          | inr late ↦
              let large : now w1 + d < now (polling.drain w2).1 = ground (arith, late) in
              let over : now w2 + d < now (polling.drain w2).1 = omega (arith, large, same) in
              let (cut, at_deadline) = clock.timeout_late d polling.drain w2 over in
              inr (
                e,
                (
                  rw (e, cut) kept,
                  inr (large, rw (e, cut) refl, rw (e, cut) (omega (arith, at_deadline, same))),
                ),
              )
        ]
  ]
