-- ===== src/Temporal/Tests/Sdk.antt =====
-- Retry policies, workflow ids, clients and workers of crates/altair-temporal/src on small crates.
use altair_rs.Prelude.{
  ℕ, ◌+◌, ◌<◌, ◌≡◌, refl, ◌⊎◌, inl, inr, Bool, true, false, Bool-cases, le→leb, Option, none, some,
  List, [], ◌∷◌, arith, leb, ltb, if◌then◌else◌,
}
use altair_rs.Prelude.Text.{String, str_eq}
use altair_rs.Prelude.Async.{Fut, Result as AsyncResult, ok, err}
use altair_rs.Retry.Config.{from_secs}
use altair_rs.Temporal.Error.{configuration}
use altair_rs.Temporal.Retry.{Numbers, RetryPolicyBuilder, default_policy, set_initial_interval}
use altair_rs.Temporal.Config.{Config, default_config}
use altair_rs.Temporal.Client.{Sdk, from_config, TlsOptions}
use altair_rs.Temporal.Client.Connect.{LoadsTls, Connects, from_config_lem}
use altair_rs.Temporal.Worker.{
  WorkerSdk, Worker, WorkerSettings, WorkerBuilder, Polling, new_worker_builder,
  register_activities, register_workflow, build_worker, run_with_shutdown,
}
use altair_rs.Temporal.Worker.Build.{Builds, Describes, Builds-build_worker}
use altair_rs.Temporal.Worker.Shutdown.{Clock, answered, Drains, run_with_shutdown_lem}

-- Coefficients that are natural numbers.
abbrev naturals : Numbers ℕ
naturals = record {
  is_finite = λ c. true;
  is_positive = λ c. ltb 0 c;
  two = 2;
  print = λ c. "n";
  debug = λ d. "d";
}

abbrev slow_start : RetryPolicyBuilder ℕ
slow_start = set_initial_interval (from_secs 31) (default_policy naturals)

-- One file, "ca.pem". The outside state counts the connections.
abbrev files : String → AsyncResult (List ℕ) String
files path = if str_eq path "ca.pem" then ok (1 ∷ []) else err "not found"

abbrev sdk : Sdk ℕ String String ℕ ℕ
sdk = record {
  parse = λ host. ok host;
  read = λ path w. (files path, w);
  connect = λ options w. (ok w, w + 1);
  new_client = λ connection namespace. ok connection;
}

abbrev secured : Config
secured = record default_config {
  tls = some (record {
    server_root_ca_cert = some "ca.pem";
    client_cert = some "client.pem";
    client_key = none;
    server_name_override = none;
  });
}

-- A certificate without a key: no connection is opened.
unpaired : (from_config sdk secured 0).1 ≡ 0
unfolding from_config
unpaired = refl

from_config_lem_example :
    ((url : String) × (tls : Option TlsOptions) × (sdk.parse secured.host ≡ ok url)
      × LoadsTls files secured.tls tls
      × Connects sdk secured
          (sdk.connect (record { url = url; identity = secured.identity; tls_options = tls }) 0)
          (from_config sdk secured 0))
    ⊎ ((text : String) × (from_config sdk secured 0 ≡ (err (configuration text), 0))
        × ((url : String) (tls : Option TlsOptions)
            → sdk.parse secured.host ≡ ok url
            → LoadsTls files secured.tls tls
            → ⊥))
from_config_lem_example = from_config_lem sdk files secured 0 (λ path w. refl)

-- Options are the settings with the number of registrations.
abbrev worker_sdk : WorkerSdk ℕ String (WorkerSettings × ℕ) ℕ ℕ ℕ
worker_sdk = record {
  options = λ settings. (settings, 0);
  runtime = λ w. (ok w, w + 1);
  new_worker = λ runtime client options w. (ok options.1, w + 1);
  boxed = λ e. e;
}

abbrev two_registrations : WorkerBuilder (WorkerSettings × ℕ)
two_registrations =
    register_workflow (λ o. (ok tt, (o.0, o.1 + 1)))
      (register_activities (λ o. (o.0, o.1 + 1)) (new_worker_builder default_config))

Builds-build_worker_example :
    (settings : WorkerSettings) × Describes default_config settings
    × Builds worker_sdk
        (from_config sdk)
        two_registrations
        settings
        0
        (build_worker worker_sdk (from_config sdk) two_registrations 0)
Builds-build_worker_example = Builds-build_worker worker_sdk (from_config sdk) two_registrations 0

-- The outside state is the time and the token of the shutdown. The shutdown is asked for at 5, and
-- the worker needs 100 more.
abbrev timed_out :
    ℕ
    → Fut (ℕ × Bool) (AsyncResult (Unit {0}) String)
    → Fut (ℕ × Bool) (Option (AsyncResult (Unit {0}) String))
timed_out d fut w =
    if leb (fut w).1.0 (w.0 + d) then (some (fut w).0, (fut w).1) else (none, (w.0 + d, w.1))

abbrev polling : Polling (ℕ × Bool) String
polling = record {
  select = λ w. (none, (5, w.1));
  shutdown_handle = λ w. (w.0, true);
  drain = λ w. (ok tt, (w.0 + 100, w.1));
  timeout = timed_out;
  boxed = λ e. e;
}

late :
    (d : ℕ) (fut : Fut (ℕ × Bool) (AsyncResult (Unit {0}) String)) (w : ℕ × Bool)
    → w.0 + d < (fut w).1.0
    → ((timed_out d fut w).0 ≡ none) × ((timed_out d fut w).1.0 ≡ w.0 + d)
late d fut w over =
    let off : leb (fut w).1.0 (w.0 + d) ≡ false = ground (arith, over) in (rw off refl, rw off refl)

kept : (d : ℕ) (w : ℕ × Bool) → w.1 ≡ true → (timed_out d polling.drain w).1.1 ≡ true
kept d w set = elim (Bool-cases (leb (w.0 + 100) (w.0 + d))) [
  | inl fits ↦ rw fits set
  | inr over ↦ rw over set
]

abbrev clock : Clock polling
clock = record {
  now = λ w. w.0;
  told = λ w. w.1;
  timeout_in_time = λ d fut w fits. rw (le→leb _ _ fits) refl;
  timeout_late = λ d fut w over. late d fut w over;
  now-shutdown_handle = λ w. refl;
  told-shutdown_handle = λ w. refl;
  told-timeout = λ d w set. kept d w set;
}

abbrev impatient : Worker ℕ ℕ
impatient = record { inner = 0; runtime = 0; drain_deadline = 60 }

run_with_shutdown_lem_example :
    ((res : AsyncResult (Unit {0}) String) × ((polling.select (0, false)).0 ≡ some res)
      × (run_with_shutdown polling impatient (0, false) ≡ (answered polling clock res, (5, false))))
    ⊎ (((polling.select (0, false)).0 ≡ none)
        × Drains polling clock 60 (5, false) (run_with_shutdown polling impatient (0, false)))
run_with_shutdown_lem_example = run_with_shutdown_lem polling clock impatient (0, false)
