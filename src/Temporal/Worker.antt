-- ===== src/Temporal/Worker.antt =====
-- crates/altair-temporal/src/worker.rs: the builder of workers and their run. The crate
-- temporalio_sdk is the parameter `WorkerSdk`, tokio the parameter `Polling`; `W` is everything
-- outside of the crate. Signals are the caller's shutdown future.
pub mod Build
pub mod Shutdown
use altair_rs.Prelude.{
  ℕ, ◌+◌, ◌*◌, ◌-◌, ◌^◌, Option, none, some, List, [], ◌∷◌, ◌++◌, leb, if◌then◌else◌,
}
use altair_rs.Prelude.Text.{String, ◌+++◌}
use altair_rs.Prelude.Async.{Fut, Result as AsyncResult, ok, err, and_then, map_error}
use altair_rs.Retry.Config.{from_secs}
use altair_rs.Temporal.Error.{Error, Result, worker_failed}
use altair_rs.Temporal.Config.{Config}

-- A fixed number of slots for each kind of task: `TunerHolder`.
pub record Tuner : Type 0 where
  pub workflow_slots : ℕ
  pub activity_slots : ℕ
  pub local_activity_slots : ℕ
  pub nexus_slots : ℕ

-- What the builder of `WorkerOptions` is given.
pub record WorkerSettings : Type 0 where
  pub task_queue : String
  pub max_cached_workflows : ℕ
  pub tuner : Tuner
  pub graceful_shutdown_period : Option ℕ
  pub client_identity_override : Option String

-- `O` is the type of options, `R` that of runtimes, `C` of clients and `K` of workers. An error is
-- its text; `boxed` makes it a source.
pub record WorkerSdk (W B O R C K : Type 0) : Type 0 where
  pub options : WorkerSettings → O
  pub runtime : Fut W (AsyncResult R String)
  pub new_worker : R → C → O → Fut W (AsyncResult K String)
  pub boxed : String → B

-- A registration takes `&mut WorkerOptions`: it answers with the options that it leaves.
abbrev pub Registration : Type 0 → Type 0
Registration O = O → AsyncResult (Unit {0}) String × O

pub record WorkerBuilder (O : Type 0) : Type 0 where
  pub config : Config
  pub registrations : List (Registration O)

pub record Worker (R K : Type 0) : Type 0 where
  pub inner : K
  pub runtime : R
  pub drain_deadline : ℕ

module _ {O : Type 0} where
  abbrev pub new_worker_builder : Config → WorkerBuilder O
  new_worker_builder cfg = record { config = cfg; registrations = [] }

  abbrev pub worker_identity : String → WorkerBuilder O → WorkerBuilder O
  worker_identity id self = record self { config = record self.config { identity = some id } }

  abbrev pub worker_activities : ℕ → WorkerBuilder O → WorkerBuilder O
  worker_activities n self = record self {
    config = record self.config { max_concurrent_activities = n };
  }

  abbrev pub worker_workflows : ℕ → WorkerBuilder O → WorkerBuilder O
  worker_workflows n self = record self {
    config = record self.config { max_concurrent_workflows = n };
  }

  abbrev pub worker_cached : ℕ → WorkerBuilder O → WorkerBuilder O
  worker_cached n self = record self { config = record self.config { max_cached_workflows = n } }

  -- `register_workflow`, and `register_activities`, whose registration does not fail.
  abbrev pub register_workflow : Registration O → WorkerBuilder O → WorkerBuilder O
  register_workflow workflow self = record self {
    registrations = self.registrations ++ (workflow ∷ []);
  }

  abbrev pub register_activities : (O → O) → WorkerBuilder O → WorkerBuilder O
  register_activities instance_of self = record self {
    registrations = self.registrations ++ ((λ options. (ok tt, instance_of options)) ∷ []);
  }

-- `usize::try_from(n).unwrap_or(usize::MAX)`, on 64 bits.
abbrev pub slots : ℕ → ℕ
slots n = if leb n (2 ^ 64 - 1) then n else 2 ^ 64 - 1

abbrev pub tuner_of : Config → Tuner
tuner_of config = record {
  workflow_slots = slots config.max_concurrent_workflows;
  activity_slots = slots config.max_concurrent_activities;
  local_activity_slots = slots config.max_concurrent_activities;
  nexus_slots = slots config.max_concurrent_activities;
}

abbrev pub worker_settings : Config → WorkerSettings
worker_settings config = record {
  task_queue = config.task_queue;
  max_cached_workflows = config.max_cached_workflows;
  tuner = tuner_of config;
  graceful_shutdown_period = some config.shutdown_grace;
  client_identity_override = config.identity;
}

-- `Duration::MAX`: the largest u64 of seconds, and the largest fraction.
abbrev pub longest_duration : ℕ
longest_duration = (2 ^ 64 - 1) * 1000000000 + 999999999

module _ {W B O R C K : Type 0} (sdk : WorkerSdk W B O R C K) where
  -- `Error::worker(format!("{what}: {e}"))`.
  abbrev pub worker_error : String → String → Error B String
  worker_error what e = worker_failed (sdk.boxed (◌+++◌ what (◌+++◌ ": " e)))

  -- The loop over the registrations, from the answer of one on.
  abbrev pub registered :
      AsyncResult (Unit {0}) String × O → (O → Result O B String) → Result O B String
  registered (ok _, options) rest = rest options
  registered (err e, options) rest = err (worker_error "workflow registration" e)

  unfoldable pub apply_registrations : List (Registration O) → O → Result O B String
  apply_registrations [] options = ok options
  apply_registrations (reg ∷ regs) options = registered (reg options) (apply_registrations regs)

  -- The sum of durations, which panics above the largest one.
  abbrev pub checked_deadline : ℕ → Option ℕ
  checked_deadline grace =
      if leb (grace + from_secs 30) longest_duration then some (grace + from_secs 30) else none

  -- The deadline is computed once everything is made.
  abbrev pub with_deadline :
      Option ℕ → Result (K × R) B String × W → Option (Result (Worker R K) B String × W)
  with_deadline deadline (err e, w) = some (err e, w)
  with_deadline none (ok made, w) = none
  with_deadline (some d) (ok (inner, runtime), w) =
      some (ok (record { inner = inner; runtime = runtime; drain_deadline = d }), w)

  abbrev pub make_worker :
      (Config → Fut W (Result C B String)) → WorkerBuilder O → Fut W (Result (K × R) B String)
  make_worker from_config self w = and_then (from_config self.config w) λ client w1.
      let (started, w2) = sdk.runtime w1 in
      and_then (map_error (worker_error "runtime init") started, w2)
        λ runtime w3.
          and_then
            (apply_registrations self.registrations (sdk.options (worker_settings self.config)), w3)
            λ options w4.
              let (made, w5) = sdk.new_worker runtime client options w4 in
              and_then (map_error (worker_error "worker init") made, w5)
                λ inner w6. (ok (inner, runtime), w6)

  -- `WorkerBuilder::build`, with the answer of `Client::from_config`, where none is a panic.
  unfoldable pub build_worker :
      (Config → Fut W (Result C B String))
      → WorkerBuilder O
      → W
      → Option (Result (Worker R K) B String × W)
  unfolding apply_registrations
  build_worker from_config self w =
      with_deadline (checked_deadline self.config.shutdown_grace) (make_worker from_config self w)

-- The future of a worker's run: `select` polls it until it or the shutdown future is ready, which
-- is none; `drain` polls it on to its end. `timeout` is that of tokio, where none is its error.
pub record Polling (W B : Type 0) : Type 0 where
  pub select : Fut W (Option (AsyncResult (Unit {0}) String))
  pub shutdown_handle : W → W
  pub drain : Fut W (AsyncResult (Unit {0}) String)
  pub timeout :
      ℕ → Fut W (AsyncResult (Unit {0}) String) → Fut W (Option (AsyncResult (Unit {0}) String))
  pub boxed : String → B

module _ {W B : Type 0} (polling : Polling W B) where
  -- `res.map_err(|e| Error::worker(format!("{e:#}")))`.
  abbrev pub run_error : AsyncResult (Unit {0}) String → Result (Unit {0}) B String
  run_error res = map_error (λ e. worker_failed (polling.boxed e)) res

  abbrev pub drained : Option (AsyncResult (Unit {0}) String) × W → Result (Unit {0}) B String × W
  drained (some res, w) = (run_error res, w)
  drained (none, w) = (ok tt, w)

  abbrev pub selected :
      ℕ → Option (AsyncResult (Unit {0}) String) × W → Result (Unit {0}) B String × W
  selected drain_deadline (some res, w) = (run_error res, w)
  selected drain_deadline (none, w) =
      drained (polling.timeout drain_deadline polling.drain (polling.shutdown_handle w))

  unfoldable pub run_with_shutdown :
      {R K : Type 0} → Worker R K → Fut W (Result (Unit {0}) B String)
  run_with_shutdown self w = selected self.drain_deadline (polling.select w)
