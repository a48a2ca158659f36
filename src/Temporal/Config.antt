-- ===== src/Temporal/Config.antt =====
-- crates/altair-temporal/src/config.rs: the configuration of clients and workers. A path is its
-- text, a `Duration` its number of nanoseconds.
use altair_rs.Prelude.{ℕ, Option, none, some}
use altair_rs.Prelude.Text.{String}
use altair_rs.Prelude.Async.{Result, ok, err}
use altair_rs.Retry.Config.{from_secs}

pub record TlsConfig : Type 0 where
  pub server_root_ca_cert : Option String
  pub client_cert : Option String
  pub client_key : Option String
  pub server_name_override : Option String

pub record Config : Type 0 where
  pub host : String
  pub namespace : String
  pub task_queue : String
  pub identity : Option String
  pub max_concurrent_activities : ℕ
  pub max_concurrent_workflows : ℕ
  pub max_cached_workflows : ℕ
  pub shutdown_grace : ℕ
  pub tls : Option TlsConfig

abbrev pub default_config : Config
default_config = record {
  host = "http://localhost:7233";
  namespace = "default";
  task_queue = "";
  identity = none;
  max_concurrent_activities = 100;
  max_concurrent_workflows = 100;
  max_cached_workflows = 1000;
  shutdown_grace = from_secs 30;
  tls = none;
}

-- `duration_secs::deserialize`, on what the deserializer of u64 answers.
abbrev pub deserialize_secs : {E : Type 0} → Result ℕ E → Result ℕ E
deserialize_secs (ok secs) = ok (from_secs secs)
deserialize_secs (err e) = err e

-- `Debug` of `TlsConfig`: the fields that `finish` prints, with a mark in place of a path.
abbrev pub redacted : Option String → Option String
redacted none = none
redacted (some path) = some "<set>"

abbrev pub debug_fields : TlsConfig → TlsConfig
debug_fields self = record {
  server_root_ca_cert = redacted self.server_root_ca_cert;
  client_cert = redacted self.client_cert;
  client_key = redacted self.client_key;
  server_name_override = self.server_name_override;
}
