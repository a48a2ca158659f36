-- ===== src/Temporal/Client.antt =====
-- crates/altair-temporal/src/client.rs. The crates url, tokio::fs and temporalio_client are the
-- parameter `Sdk`; `W` is everything outside of the crate. The warning on plain HTTP is left out.
pub mod Tls
pub mod Connect
use altair_rs.Prelude.{ℕ, Option, none, some, List}
use altair_rs.Prelude.Text.{String, ◌+++◌}
use altair_rs.Prelude.Async.{Fut, Result as AsyncResult, ok, err, and_then, map_error}
use altair_rs.Temporal.Error.{Error, Result, connect_failed, client_failed, configuration}
use altair_rs.Temporal.Config.{Config, TlsConfig}

-- `ClientTlsOptions`, `TlsOptions` and `ConnectionOptions`: what the builders are given.
pub record ClientTls : Type 0 where
  pub client_cert : List ℕ
  pub client_private_key : List ℕ

pub record TlsOptions : Type 0 where
  pub server_root_ca_cert : Option (List ℕ)
  pub domain : Option String
  pub client_tls_options : Option ClientTls

pub record ConnectionOptions (L : Type 0) : Type 0 where
  pub url : L
  pub identity : Option String
  pub tls_options : Option TlsOptions

-- `L` is the type of URLs, `N` that of connections, `C` that of clients. Errors of `parse` and
-- `read` are their texts.
pub record Sdk (W B L N C : Type 0) : Type 0 where
  pub parse : String → AsyncResult L String
  pub read : String → Fut W (AsyncResult (List ℕ) String)
  pub connect : ConnectionOptions L → Fut W (AsyncResult N B)
  pub new_client : N → String → AsyncResult C B

abbrev pub unread : String → String → String → String
unread what path e = ◌+++◌ "read " (◌+++◌ what (◌+++◌ " (" (◌+++◌ path (◌+++◌ "): " e))))

module _ {W B L N C : Type 0} (sdk : Sdk W B L N C) where
  -- `tokio::fs::read(path).await.map_err(…)?` for the field `what`.
  abbrev pub read_pem : String → String → Fut W (Result (List ℕ) B String)
  read_pem what path w =
      let (answer, w1) = sdk.read path w in
      (map_error (λ e. configuration (unread what path e)) answer, w1)

  abbrev pub read_ca : Option String → Fut W (Result (Option (List ℕ)) B String)
  read_ca none w = (ok none, w)
  read_ca (some path) w =
      and_then (read_pem "server_root_ca_cert" path w) λ ca w1. (ok (some ca), w1)

  abbrev pub read_pair : Option String → Option String → Fut W (Result (Option ClientTls) B String)
  read_pair none none w = (ok none, w)
  read_pair (some cert_path) (some key_path) w =
      and_then (read_pem "client_cert" cert_path w) λ cert w1.
        and_then (read_pem "client_key" key_path w1)
          λ key w2. (ok (some (record { client_cert = cert; client_private_key = key })), w2)
  read_pair none (some key_path) w =
      (err (configuration "client_cert and client_key must both be set or both unset"), w)
  read_pair (some cert_path) none w =
      (err (configuration "client_cert and client_key must both be set or both unset"), w)

  unfoldable pub build_tls : TlsConfig → Fut W (Result TlsOptions B String)
  build_tls cfg w = and_then (read_ca cfg.server_root_ca_cert w) λ ca w1.
      and_then (read_pair cfg.client_cert cfg.client_key w1) λ client_tls w2. (
        ok (record {
          server_root_ca_cert = ca;
          domain = cfg.server_name_override;
          client_tls_options = client_tls;
        }),
        w2,
      )

  abbrev pub tls_options : Option TlsConfig → Fut W (Result (Option TlsOptions) B String)
  tls_options none w = (ok none, w)
  tls_options (some t) w = and_then (build_tls t w) λ tls w1. (ok (some tls), w1)

  abbrev pub connection_options : Config → L → Option TlsOptions → ConnectionOptions L
  connection_options cfg url tls = record { url = url; identity = cfg.identity; tls_options = tls }

  -- The connection and the client on it.
  abbrev pub connect_with : Config → ConnectionOptions L → Fut W (Result C B String)
  connect_with cfg options w =
      let (connected, w1) = sdk.connect options w in
      and_then (map_error (connect_failed cfg.host) connected, w1)
        λ connection w2. (map_error client_failed (sdk.new_client connection cfg.namespace), w2)

  unfoldable pub from_config : Config → Fut W (Result C B String)
  unfolding build_tls
  from_config cfg w =
      and_then (map_error (λ e. configuration (◌+++◌ "invalid host: " e)) (sdk.parse cfg.host), w)
        λ url w1.
          and_then (tls_options cfg.tls w1)
            λ tls w2. connect_with cfg (connection_options cfg url tls) w2
