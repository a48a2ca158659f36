-- ===== src/Otel/Config.antt =====
-- crates/altair-otel/src: config.rs and error.rs. The environment is a function from names.
use altair_rs.Prelude.{Option, none, some, List, [], ◌∷◌, ◌++◌, if◌then◌else◌}
use altair_rs.Prelude.Text.{String, str_eq}
use altair_rs.Prelude.Async.{Result as AsyncResult, ok, err, ◌>>=◌}
use altair_rs.Wf.Datasync.Job.{is_blank}

pub data Error : Type 0 where
  configuration : String → Error
  env_config : (key message : String) → Error
  exporter_failed : String → Error
  already_initialized : Error

abbrev pub Result : Type 0 → Type 0
Result T = AsyncResult T Error

pub data Exporter : Type 0 where
  otlp stdout no_exporter : Exporter

pub data LogFormat : Type 0 where
  pretty json : LogFormat

-- `Config`, and `ConfigInner`, which has the same fields.
pub record Config : Type 0 where
  pub service_name : String
  pub service_version : Option String
  pub otlp_endpoint : Option String
  pub resource_attributes : List (String × String)
  pub exporter : Exporter
  pub log_format : LogFormat

abbrev pub default_inner : Config
default_inner = record {
  service_name = "";
  service_version = none;
  otlp_endpoint = none;
  resource_attributes = [];
  exporter = otlp;
  log_format = pretty;
}

-- `ConfigBuilder`, with its `inner`.
abbrev pub ConfigBuilder : Type 0
ConfigBuilder = Option Config

abbrev pub inner_mut : ConfigBuilder → Config
inner_mut none = default_inner
inner_mut (some inner) = inner

abbrev pub set_service_name : String → ConfigBuilder → ConfigBuilder
set_service_name name self = some (record (inner_mut self) { service_name = name })

abbrev pub set_service_version : String → ConfigBuilder → ConfigBuilder
set_service_version v self = some (record (inner_mut self) { service_version = some v })

abbrev pub set_otlp_endpoint : String → ConfigBuilder → ConfigBuilder
set_otlp_endpoint e self = some (record (inner_mut self) { otlp_endpoint = some e })

abbrev pub add_resource_attribute : String → String → ConfigBuilder → ConfigBuilder
add_resource_attribute key value self = some (record (inner_mut self) {
  resource_attributes = (inner_mut self).resource_attributes ++ ((key, value) ∷ []);
})

abbrev pub set_exporter : Exporter → ConfigBuilder → ConfigBuilder
set_exporter exp self = some (record (inner_mut self) { exporter = exp })

abbrev pub set_log_format : LogFormat → ConfigBuilder → ConfigBuilder
set_log_format f self = some (record (inner_mut self) { log_format = f })

abbrev pub named_config : Config → Result Config
named_config inner =
    if is_blank inner.service_name then err (configuration "service_name is required") else ok inner

-- `ConfigBuilder::build`.
unfoldable pub build_config : ConfigBuilder → Result Config
unfolding is_blank
build_config none = err (configuration "ConfigBuilder is empty")
build_config (some inner) = named_config inner

abbrev pub log_format_of : Option String → LogFormat
log_format_of none = pretty
log_format_of (some text) = if str_eq text "json" then json else pretty

abbrev pub service_name_of : Option String → Result String
service_name_of none = err (env_config "OTEL_SERVICE_NAME" "not set")
service_name_of (some name) = ok name

-- `Config::from_env`.
unfoldable pub from_env : (String → Option String) → Result Config
from_env env = do
  service_name ← service_name_of (env "OTEL_SERVICE_NAME")
  ok (record {
    service_name = service_name;
    service_version = env "OTEL_SERVICE_VERSION";
    otlp_endpoint = env "OTEL_EXPORTER_OTLP_ENDPOINT";
    resource_attributes = [];
    exporter = otlp;
    log_format = log_format_of (env "OTEL_LOG_FORMAT");
  })
