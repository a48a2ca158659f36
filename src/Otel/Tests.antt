-- ===== src/Otel/Tests.antt =====
-- Runs of the functions of crates/altair-otel/src, and the theorems at concrete inputs.
use altair_rs.Prelude.{ℕ, ◌≤◌, ◌≡◌, refl, false, none, some, [], ◌∷◌}
use altair_rs.Prelude.Text.{String}
use altair_rs.Prelude.Async.{ok, err}
use altair_rs.Otel.Config.{
  Config, no_exporter, otlp, build_config, from_env, set_service_name, default_inner, configuration,
  env_config, already_initialized,
}
use altair_rs.Otel.Init.{OtelSdk, Process, Attributes, init, shutdown}
use altair_rs.Otel.Twice.{inits, shuts, successes, init_twice, successes_bounded}

blank_name :
    build_config (set_service_name "  " none) ≡ err (configuration "service_name is required")
unfolding build_config
blank_name = refl

no_name : from_env (λ key. none) ≡ err (env_config "OTEL_SERVICE_NAME" "not set")
unfolding from_env
no_name = refl

-- A tracer provider is its attributes, and a meter provider too. Exporters cannot be built.
abbrev sdk : OtelSdk Attributes Attributes ℕ ℕ
sdk = record {
  span_exporter = λ endpoint. err "no endpoint";
  metric_exporter = λ endpoint. err "no endpoint";
  tracer_provider = λ attributes target. attributes;
  meter_provider = λ attributes target. attributes;
}

abbrev fresh : Process Attributes Attributes
fresh = record {
  propagator = false;
  global_tracer = none;
  global_meter = none;
  subscriber = none;
  slot = none;
  poisoned = false;
  tracers_shut = [];
  meters_shut = [];
}

abbrev quiet : String → Config
quiet name = record default_inner { service_name = name; exporter = no_exporter }

abbrev named : String → Attributes
named name = ("service.name", name) ∷ []

init_twice_example :
    (after : Process Attributes Attributes) × (again : Process Attributes Attributes) × (init sdk
        (quiet "a")
        fresh
      ≡ (ok tt, after))
    × (init sdk (quiet "b") after ≡ (err already_initialized, again))
    × ((shutdown again).global_tracer ≡ some (named "b"))
    × ((shutdown again).global_meter ≡ some (named "b"))
    × ((shutdown again).tracers_shut ≡ named "a" ∷ [])
    × ((shutdown again).meters_shut ≡ named "a" ∷ [])
    × (shutdown (shutdown again) ≡ shutdown again)
init_twice_example =
    init_twice sdk (quiet "a") (quiet "b") fresh (named "a", named "a") (named "b", named "b") refl
      refl refl refl refl

successes_bounded_example :
    successes sdk
      (inits (record (quiet "a") { exporter = otlp })
        ∷ inits (quiet "a")
        ∷ shuts
        ∷ inits (quiet "b")
        ∷ [])
      fresh
    ≤ 1
successes_bounded_example =
    successes_bounded sdk
      (inits (record (quiet "a") { exporter = otlp })
        ∷ inits (quiet "a")
        ∷ shuts
        ∷ inits (quiet "b")
        ∷ [])
      fresh
