-- ===== src/Otel/Init.antt =====
-- crates/altair-otel/src: init.rs and globals.rs. The process-wide slots are a state that is passed
-- on. The filter of log levels, which the environment gives, is left out.
use altair_rs.Prelude.{Bool, true, false, Option, none, some, List, [], ◌∷◌, ◌++◌, if◌then◌else◌}
use altair_rs.Prelude.Text.{String}
use altair_rs.Prelude.Async.{Result as AsyncResult, ok, err, ◌>>=◌}
use altair_rs.Otel.Config.{
  Config, Exporter, otlp, stdout, no_exporter, LogFormat, Result, exporter_failed,
  already_initialized,
}

abbrev pub Attributes : Type 0
Attributes = List (String × String)

-- Where a provider sends: an exporter of type `S`, the standard output, or nowhere.
pub data Sends (S : Type 0) : Type 0 where
  exports : S → Sends S
  prints drops : Sends S

-- The OpenTelemetry crates: `P` is the type of tracer providers, `M` of meter providers, `S` and
-- `T` of the exporters of spans and of metrics. An error is its text.
pub record OtelSdk (P M S T : Type 0) : Type 0 where
  pub span_exporter : Option String → AsyncResult S String
  pub metric_exporter : Option String → AsyncResult T String
  pub tracer_provider : Attributes → Sends S → P
  pub meter_provider : Attributes → Sends T → M

-- The globals of the process. The subscriber is set once, with its format; `slot` is the content of
-- PROVIDERS, `poisoned` whether its lock is. The last two are the providers that were shut down.
pub record Process (P M : Type 0) : Type 0 where
  pub propagator : Bool
  pub global_tracer : Option P
  pub global_meter : Option M
  pub subscriber : Option LogFormat
  pub slot : Option (P × M)
  pub poisoned : Bool
  pub tracers_shut : List P
  pub meters_shut : List M

abbrev pub version_attribute : Option String → Attributes
version_attribute none = []
version_attribute (some v) = ("service.version", v) ∷ []

-- `build_resource`.
abbrev pub build_resource : Config → Attributes
build_resource config =
    (("service.name", config.service_name) ∷ version_attribute config.service_version)
    ++ config.resource_attributes

-- The arms of `match config.exporter`.
abbrev pub sends : {S : Type 0} → AsyncResult S String → Exporter → Result (Sends S)
sends (ok exporter) otlp = ok (exports exporter)
sends (err e) otlp = err (exporter_failed e)
sends built stdout = ok prints
sends built no_exporter = ok drops

module _ {P M S T : Type 0} (sdk : OtelSdk P M S T) where
  abbrev pub build_tracer_provider : Config → Attributes → Result P
  build_tracer_provider config resource = do
    target ← sends (sdk.span_exporter config.otlp_endpoint) config.exporter
    ok (sdk.tracer_provider resource target)

  abbrev pub build_meter_provider : Config → Attributes → Result M
  build_meter_provider config resource = do
    target ← sends (sdk.metric_exporter config.otlp_endpoint) config.exporter
    ok (sdk.meter_provider resource target)

  abbrev pub build_providers : Config → Result (P × M)
  build_providers config = do
    tracer ← build_tracer_provider config (build_resource config)
    meter ← build_meter_provider config (build_resource config)
    ok (tracer, meter)

module _ {P M : Type 0} where
  abbrev pub put_slot : P × M → Option (P × M) → Process P M → Bool × Process P M
  put_slot providers (some there) process = (false, process)
  put_slot providers none process = (true, record process { slot = some providers })

  -- `globals::install`.
  unfoldable pub install : P × M → Process P M → Bool × Process P M
  install providers process =
      if process.poisoned then (false, process) else put_slot providers process.slot process

  abbrev pub take_slot : Option (P × M) → Process P M → Process P M
  take_slot none process = process
  take_slot (some (tracer, meter)) process = record process {
    slot = none;
    tracers_shut = tracer ∷ process.tracers_shut;
    meters_shut = meter ∷ process.meters_shut;
  }

  -- `globals::shutdown`. A failure of a provider is logged.
  unfoldable pub shutdown : Process P M → Process P M
  shutdown process = if process.poisoned then process else take_slot process.slot process

  abbrev pub installed : Bool × Process P M → Result (Unit {0}) × Process P M
  installed (true, process) = (ok tt, process)
  installed (false, process) = (err already_initialized, process)

  -- `try_init`, and what follows it.
  abbrev pub subscribed :
      Option LogFormat → LogFormat → P × M → Process P M → Result (Unit {0}) × Process P M
  subscribed (some format) new providers process = (err already_initialized, process)
  subscribed none new providers process =
      installed (install providers (record process { subscriber = some new }))

  abbrev pub set_globals : P × M → Process P M → Process P M
  set_globals (tracer, meter) process = record process {
    global_tracer = some tracer;
    global_meter = some meter;
  }

  abbrev pub with_providers :
      Config → Result (P × M) → Process P M → Result (Unit {0}) × Process P M
  with_providers config (err e) process = (err e, process)
  with_providers config (ok providers) process =
      subscribed process.subscriber config.log_format providers (set_globals providers process)

-- `init::init`.
unfoldable pub init :
    {P M S T : Type 0} → OtelSdk P M S T → Config → Process P M → Result (Unit {0}) × Process P M
unfolding install
init sdk config process =
    with_providers config (build_providers sdk config) (record process { propagator = true })
