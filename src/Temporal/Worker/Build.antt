-- ===== src/Temporal/Worker/Build.antt =====
-- crates/altair-temporal/src/worker.rs: how `build` ends, by the first step that fails.
use altair_rs.Prelude.{
  ℕ, ◌≡◌, refl, ◌+◌, ◌^◌, ◌≤◌, ◌<◌, ◌⊎◌, inl, inr, Option, none, some, List, [], ◌∷◌, arith, leb,
  leb→le, Bool-cases,
}
use altair_rs.Prelude.Text.{String, ◌+++◌}
use altair_rs.Prelude.Async.{Fut, ok, err, Result-cases}
use altair_rs.Temporal.Error.{Error, Result, worker_failed}
use altair_rs.Temporal.Config.{Config}
use altair_rs.Temporal.Worker.{
  WorkerSdk, Registration, WorkerBuilder, Worker, WorkerSettings, worker_settings, slots,
  longest_duration, worker_error, apply_registrations, build_worker,
}

-- The registrations succeed one after the other, from some options to others.
pub data Registers {O : Type 0} : List (Registration O) → O → O → Type 0 where
  all_done : {o : O} → Registers [] o o
  then_rest :
      {reg : Registration O} {regs : List (Registration O)} {o o' : O}
      → (reg o).0 ≡ ok tt
      → Registers regs (reg o).1 o'
      → Registers (reg ∷ regs) o o'

-- Some succeed, and the next one fails.
pub data FailsWith {O : Type 0} : List (Registration O) → O → String → Type 0 where
  here :
      {reg : Registration O} {regs : List (Registration O)} {o : O} {e : String}
      → (reg o).0 ≡ err e
      → FailsWith (reg ∷ regs) o e
  later :
      {reg : Registration O} {regs : List (Registration O)} {o : O} {e : String}
      → (reg o).0 ≡ ok tt
      → FailsWith regs (reg o).1 e
      → FailsWith (reg ∷ regs) o e

module _ {W B O R C K : Type 0} (sdk : WorkerSdk W B O R C K) where
  apply_registrations-cases :
      (regs : List (Registration O)) (o : O)
      → ((o' : O) × (apply_registrations sdk regs o ≡ ok o') × Registers regs o o')
        ⊎ ((e : String) × (apply_registrations sdk regs o
              ≡ err (worker_error sdk "workflow registration" e))
            × FailsWith regs o e)
  unfolding apply_registrations
  apply_registrations-cases [] o = inl (o, refl, all_done)
  apply_registrations-cases (reg ∷ regs) o = elim (Result-cases (reg o).0) [
    | inr (e, failed) ↦ inr (e, rw failed refl, here failed)
    | inl (_, done) ↦ elim (apply_registrations-cases regs (reg o).1) [
      | inl (o', e, rest) ↦ inl (o', rw (done, e) refl, then_rest done rest)
      | inr (t, e, rest) ↦ inr (t, rw (done, e) refl, later done rest)
    ]
  ]

-- A number of slots, at most the largest usize.
abbrev pub Caps : ℕ → ℕ → Type 0
Caps n k = (k ≤ n) × (k < 2 ^ 64) × (n < 2 ^ 64 → k ≡ n)

-- The settings that a configuration asks for.
pub record Describes (config : Config) (settings : WorkerSettings) : Type 0 where
  pub queue : settings.task_queue ≡ config.task_queue
  pub cached : settings.max_cached_workflows ≡ config.max_cached_workflows
  pub grace : settings.graceful_shutdown_period ≡ some config.shutdown_grace
  pub named : settings.client_identity_override ≡ config.identity
  pub workflows : Caps config.max_concurrent_workflows settings.tuner.workflow_slots
  pub activities : Caps config.max_concurrent_activities settings.tuner.activity_slots
  pub local_activities : Caps config.max_concurrent_activities settings.tuner.local_activity_slots
  pub nexus_tasks : Caps config.max_concurrent_activities settings.tuner.nexus_slots

slots-Caps : (n : ℕ) → Caps n (slots n)
slots-Caps n = (ground arith, ground arith, λ h. ground arith)

worker_settings-Describes : (config : Config) → Describes config (worker_settings config)
worker_settings-Describes config = record {
  queue = refl;
  cached = refl;
  grace = refl;
  named = refl;
  workflows = slots-Caps config.max_concurrent_workflows;
  activities = slots-Caps config.max_concurrent_activities;
  local_activities = slots-Caps config.max_concurrent_activities;
  nexus_tasks = slots-Caps config.max_concurrent_activities;
}

-- The client, the runtime, the registrations in order and the worker are made one after the other,
-- up to the first that fails: the answer and the outside state of each end, where none is a panic.
pub data Builds {W B O R C K : Type 0} (sdk : WorkerSdk W B O R C K)
    (from_config : Config → Fut W (Result C B String)) (self : WorkerBuilder O)
    (settings : WorkerSettings) (w : W) : Option (Result (Worker R K) B String × W) → Type 0 where
  no_client :
      (e : Error B String)
      → (from_config self.config w).0 ≡ err e
      → Builds sdk from_config self settings w (some (err e, (from_config self.config w).1))
  no_runtime :
      (client : C) (e : String)
      → (from_config self.config w).0 ≡ ok client
      → (sdk.runtime (from_config self.config w).1).0 ≡ err e
      → Builds sdk from_config self settings w (
          some (
            err (worker_failed (sdk.boxed ("runtime init" +++ (": " +++ e)))),
            (sdk.runtime (from_config self.config w).1).1,
          ))
  not_registered :
      (client : C) (runtime : R) (e : String)
      → (from_config self.config w).0 ≡ ok client
      → (sdk.runtime (from_config self.config w).1).0 ≡ ok runtime
      → FailsWith self.registrations (sdk.options settings) e
      → Builds sdk from_config self settings w (
          some (
            err (worker_failed (sdk.boxed ("workflow registration" +++ (": " +++ e)))),
            (sdk.runtime (from_config self.config w).1).1,
          ))
  no_worker :
      (client : C) (runtime : R) (options : O) (e : String)
      → (from_config self.config w).0 ≡ ok client
      → (sdk.runtime (from_config self.config w).1).0 ≡ ok runtime
      → Registers self.registrations (sdk.options settings) options
      → (sdk.new_worker runtime client options (sdk.runtime (from_config self.config w).1).1).0
        ≡ err e
      → Builds sdk from_config self settings w (
          some (
            err (worker_failed (sdk.boxed ("worker init" +++ (": " +++ e)))),
            (sdk.new_worker runtime client options (sdk.runtime (from_config self.config w).1).1).1,
          ))
  overflowed :
      (client : C) (runtime : R) (options : O) (inner : K)
      → (from_config self.config w).0 ≡ ok client
      → (sdk.runtime (from_config self.config w).1).0 ≡ ok runtime
      → Registers self.registrations (sdk.options settings) options
      → (sdk.new_worker runtime client options (sdk.runtime (from_config self.config w).1).1).0
        ≡ ok inner
      → longest_duration < self.config.shutdown_grace + 30000000000
      → Builds sdk from_config self settings w none
  built :
      (client : C) (runtime : R) (options : O) (inner : K)
      → (from_config self.config w).0 ≡ ok client
      → (sdk.runtime (from_config self.config w).1).0 ≡ ok runtime
      → Registers self.registrations (sdk.options settings) options
      → (sdk.new_worker runtime client options (sdk.runtime (from_config self.config w).1).1).0
        ≡ ok inner
      → self.config.shutdown_grace + 30000000000 ≤ longest_duration
      → Builds sdk from_config self settings w (
          some (
            ok (record {
              inner = inner;
              runtime = runtime;
              drain_deadline = self.config.shutdown_grace + 30000000000;
            }),
            (sdk.new_worker runtime client options (sdk.runtime (from_config self.config w).1).1).1,
          ))

module _ {W B O R C K : Type 0} (sdk : WorkerSdk W B O R C K) where
  -- `build` makes the client, the runtime and then the worker, with the options of the
  -- configuration after all registrations, in the order in which they were added; it answers the
  -- error of the first step that fails, and the later steps do not happen. The drain deadline of
  -- the worker is thirty seconds more than the configured grace; where that is more than the
  -- largest duration, `build` panics once the worker is made.
  pub Builds-build_worker :
      (from_config : Config → Fut W (Result C B String)) (self : WorkerBuilder O) (w : W)
      → (settings : WorkerSettings) × Describes self.config settings
        × Builds sdk from_config self settings w (build_worker sdk from_config self w)
  unfolding build_worker
  Builds-build_worker from_config self w =
      (worker_settings self.config, worker_settings-Describes self.config, steps)
    where
      steps :
          Builds sdk from_config self
            (worker_settings self.config)
            w
            (build_worker sdk from_config self w)
      steps = elim (Result-cases (from_config self.config w).0) [
        | inr (e, failed) ↦ rw failed (no_client e failed)
        | inl (client, c) ↦ elim (Result-cases (sdk.runtime (from_config self.config w).1).0) [
          | inr (e, failed) ↦ rw (c, failed) (no_runtime client e c failed)
          | inl (runtime, r) ↦
              elim (apply_registrations-cases sdk self.registrations
                (sdk.options (worker_settings self.config))) [
                  | inr (e, refused, fails) ↦
                      rw (c, r, refused) (not_registered client runtime e c r fails)
                  | inl (options, accepted, registers) ↦
                      elim (Result-cases
                        (sdk.new_worker runtime client options
                          (sdk.runtime (from_config self.config w).1).1).0) [
                            | inr (e, failed) ↦
                                rw (c, r, accepted, failed)
                                  (no_worker client runtime options e c r registers failed)
                            | inl (inner, made) ↦
                                elim (Bool-cases (
                                  leb (self.config.shutdown_grace + 30000000000)
                                    longest_duration)) [
                                      | inl fits ↦
                                          rw (c, r, accepted, made, fits)
                                            (built client runtime options inner c r registers made
                                              (leb→le _ _ fits))
                                      | inr over ↦
                                          rw (c, r, accepted, made, over)
                                            (overflowed client runtime options inner c r registers
                                              made (ground (arith, over)))
                                    ]
                          ]
                ]
        ]
      ]
