-- ===== src/Server/Shutdown.antt =====
-- crates/altair-server/src/server.rs: how long a server with a shutdown timeout runs.
use mathlib.Core.Path.{subst}
use altair_rs.Prelude.{
  Bool-cases, leb, leb→le, ℕ, ◌+◌, ◌≤◌, ◌<◌, ◌≡◌, refl, ◌⊎◌, inl, inr, Option, none, some, arith,
}
use altair_rs.Prelude.Async.{Fut, Result as AsyncResult, err, map_error}
use altair_rs.Server.Error.{Result, io_failed, shutdown_timeout}
use altair_rs.Server.Builder.{Server, Serving, serve_within, serve_with_shutdown}

-- Documented of tokio and axum: a timeout gives the answer of what ends in time, and otherwise ends
-- once its duration is over; a server serves until its shutdown future resolves, at `asked`.
pub record Timing {W R N X : Type 0} (serving : Serving W R N X) : Type 0 where
  pub now : W → ℕ
  pub asked : W → ℕ
  pub timeout_in_time :
      (d : ℕ) (fut : Fut W (AsyncResult (Unit {0}) X)) (w : W)
      → now (fut w).1 ≤ now w + d
      → serving.timeout d fut w ≡ (some (fut w).0, (fut w).1)
  pub timeout_late :
      (d : ℕ) (fut : Fut W (AsyncResult (Unit {0}) X)) (w : W)
      → now w + d < now (fut w).1
      → ((serving.timeout d fut w).0 ≡ none) × (now (serving.timeout d fut w).1 ≡ now w + d)
  pub serves_until :
      (listener : N) (router : R) (w : W) → asked w ≤ now (serving.serve listener router w).1

module _ {W R A N X : Type 0} (serving : Serving W R N X) (timing : Timing serving) where
  open timing use {now, asked}

  -- Serving, as `axum::serve` answers it.
  abbrev pub served : Server R A N → W → AsyncResult (Unit {0}) X × W
  served self w = serving.serve self.listener self.router w

  -- Without a timeout a run is the run of the listener. With one, it is that where it ends within
  -- the timeout from the start of the run; otherwise it ends at the timeout, with ShutdownTimeout.
  abbrev pub Ends : Server R A N → W → Option ℕ → Result (Unit {0}) X × W → Type 0
  Ends self w none run = run ≡ (map_error io_failed (served self w).0, (served self w).1)
  Ends self w (some d) run =
      ((now (served self w).1 ≤ now w + d)
        × (run ≡ (map_error io_failed (served self w).0, (served self w).1)))
      ⊎ ((now w + d < now (served self w).1)
          × (run.0 ≡ err (shutdown_timeout d))
          × (now run.1 ≡ now w + d))

  ends :
      (self : Server R A N) (w : W) (limit : Option ℕ)
      → Ends self w limit (serve_within serving limit (serving.serve self.listener self.router) w)
  ends self w none = refl
  ends self w (some d) = elim (Bool-cases (leb (now (served self w).1) (now w + d))) [
    | inl in_time ↦
        let fits = leb→le (now (served self w).1) (now w + d) in_time in
        let e = timing.timeout_in_time d (serving.serve self.listener self.router) w fits in
        inl (fits, rw e refl)
    | inr late ↦
        let over : now w + d < now (served self w).1 = ground (arith, late) in
        let (cut, at) = timing.timeout_late d (serving.serve self.listener self.router) w over in
        inr (over, rw cut refl, at)
  ]

  -- How the run of a built server ends, by its shutdown timeout.
  pub serve_with_shutdown_lem :
      (self : Server R A N) (w : W)
      → Ends self w self.shutdown_timeout (serve_with_shutdown serving self w)
  unfolding serve_with_shutdown
  serve_with_shutdown_lem self w = ends self w self.shutdown_timeout

  -- With a shutdown timeout a run ends at most that long after its start. Where the shutdown is
  -- asked for only later, the run ends before, at the timeout, with ShutdownTimeout.
  pub serve_with_shutdown_bounded :
      (self : Server R A N) (d : ℕ) (w : W)
      → self.shutdown_timeout ≡ some d
      → (now (serve_with_shutdown serving self w).1 ≤ now w + d)
        × (now w + d < asked w
            → ((serve_with_shutdown serving self w).0 ≡ err (shutdown_timeout d))
              × (now (serve_with_shutdown serving self w).1 ≡ now w + d))
  serve_with_shutdown_bounded self d w set = bounded (
      subst (λ limit. Ends self w limit (serve_with_shutdown serving self w)) set
        (serve_with_shutdown_lem self w))
    where
      bounded :
          Ends self w (some d) (serve_with_shutdown serving self w)
          → (now (serve_with_shutdown serving self w).1 ≤ now w + d)
            × (now w + d < asked w
                → ((serve_with_shutdown serving self w).0 ≡ err (shutdown_timeout d))
                  × (now (serve_with_shutdown serving self w).1 ≡ now w + d))
      bounded (inr (over, cut, at)) = (omega (arith, at), λ _. (cut, at))
      bounded (inl (fits, run)) =
          let until = timing.serves_until self.listener self.router w in
          (rw run fits, λ later. absurd (omega (arith, fits, later, until)))
