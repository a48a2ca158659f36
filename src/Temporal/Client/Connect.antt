-- ===== src/Temporal/Client/Connect.antt =====
-- crates/altair-temporal/src/client.rs: when a connection is opened, and with which options.
use altair_rs.Prelude.{ℕ, ◌≡◌, refl, ◌⊎◌, inl, inr, Option, none, some, List}
use altair_rs.Prelude.Text.{String, ◌+++◌}
use altair_rs.Prelude.Async.{Result as AsyncResult, ok, err, and_then, map_error, Result-cases}
use altair_rs.Temporal.Error.{Result, configuration, connect_failed, client_failed}
use altair_rs.Temporal.Config.{Config, TlsConfig}
use altair_rs.Temporal.Client.{
  Sdk, TlsOptions, ConnectionOptions, tls_options, connection_options, connect_with, from_config,
}
use altair_rs.Temporal.Client.Tls.{LoadsAll, Reads, build_tls_lem}

-- No TLS, or the options that hold the contents of the files.
abbrev pub LoadsTls :
    (String → AsyncResult (List ℕ) String) → Option TlsConfig → Option TlsOptions → Type 0
LoadsTls files none none = Unit {0}
LoadsTls files (some cfg) (some options) = LoadsAll files cfg options
LoadsTls files _ _ = ⊥

-- From the answer of one call that connects, and the state after it: its error with the host, or the
-- client on the connection in the configured namespace, or the error of that.
pub data Connects {W B L N C : Type 0} (sdk : Sdk W B L N C) (cfg : Config)
    (called : AsyncResult N B × W) : Result C B String × W → Type 0 where
  not_connected :
      (e : B)
      → called.0 ≡ err e
      → Connects sdk cfg called (err (connect_failed cfg.host e), called.1)
  no_client :
      (connection : N) (e : B)
      → called.0 ≡ ok connection
      → sdk.new_client connection cfg.namespace ≡ err e
      → Connects sdk cfg called (err (client_failed e), called.1)
  connected :
      (connection : N) (client : C)
      → called.0 ≡ ok connection
      → sdk.new_client connection cfg.namespace ≡ ok client
      → Connects sdk cfg called (ok client, called.1)

Connects-new_client :
    {W B L N C : Type 0} (sdk : Sdk W B L N C) (cfg : Config) (called : AsyncResult N B × W)
    → Connects sdk cfg called (
        and_then
          (map_error (connect_failed cfg.host) called.0, called.1)
          λ connection w. (map_error client_failed (sdk.new_client connection cfg.namespace), w))
Connects-new_client sdk cfg (err e, w) = not_connected e refl
Connects-new_client sdk cfg (ok connection, w) =
    elim (Result-cases (sdk.new_client connection cfg.namespace)) [
      | inr (e, failed) ↦ rw failed (no_client connection e refl failed)
      | inl (client, done) ↦ rw done (connected connection client refl done)
    ]

Connects-connect_with :
    {W B L N C : Type 0} (sdk : Sdk W B L N C) (cfg : Config) (options : ConnectionOptions L)
    (w : W)
    → Connects sdk cfg (sdk.connect options w) (connect_with sdk cfg options w)
Connects-connect_with sdk cfg options w = Connects-new_client sdk cfg (sdk.connect options w)

module _ {W B L N C : Type 0} (sdk : Sdk W B L N C)
    (files : String → AsyncResult (List ℕ) String) where
  LoadsTls-never :
      (cfg : TlsConfig)
      → ((options : TlsOptions) → LoadsAll files cfg options → ⊥)
      → (tls : Option TlsOptions) → LoadsTls files (some cfg) tls
      → ⊥
  LoadsTls-never cfg never none h = h
  LoadsTls-never cfg never (some options) h = never options h

  tls_options-cases :
      (cfg : Option TlsConfig) (w : W)
      → Reads sdk files
      → ((tls : Option TlsOptions) × (tls_options sdk cfg w ≡ (ok tls, w)) × LoadsTls files cfg tls)
        ⊎ ((text : String) × (tls_options sdk cfg w ≡ (err (configuration text), w))
            × ((tls : Option TlsOptions) → LoadsTls files cfg tls → ⊥))
  tls_options-cases none w reads = inl (none, refl, tt)
  tls_options-cases (some cfg) w reads = elim (build_tls_lem sdk files cfg w reads) [
    | inl (options, e, loaded) ↦ inl (some options, rw e refl, loaded)
    | inr (text, e, never) ↦ inr (text, rw e refl, LoadsTls-never cfg never)
  ]

  -- `from_config` with a valid host and TLS files that can be read opens one connection, with the
  -- configured identity and the contents of the files, and without TLS where none is configured,
  -- and then makes the client in the configured namespace, or answers the error of the first of the
  -- two that fails; with any other configuration it answers a configuration error and opens none.
  pub from_config_lem :
      (cfg : Config) (w : W)
      → Reads sdk files
      → ((url : L) × (tls : Option TlsOptions) × (sdk.parse cfg.host ≡ ok url)
          × LoadsTls files cfg.tls tls
          × Connects sdk cfg
              (sdk.connect (record { url = url; identity = cfg.identity; tls_options = tls }) w)
              (from_config sdk cfg w))
        ⊎ ((text : String) × (from_config sdk cfg w ≡ (err (configuration text), w))
            × ((url : L) (tls : Option TlsOptions)
                → sdk.parse cfg.host ≡ ok url
                → LoadsTls files cfg.tls tls
                → ⊥))
  unfolding from_config
  from_config_lem cfg w reads = elim (Result-cases (sdk.parse cfg.host)) [
    | inr (e, bad) ↦
        inr (◌+++◌ "invalid host: " e, rw bad refl, λ url tls parsed _. cc (bad, parsed))
    | inl (url, parsed) ↦ elim (tls_options-cases cfg.tls w reads) [
      | inr (text, failed, never) ↦
          inr (text, rw (parsed, failed) refl, λ _ tls _ loaded. never tls loaded)
      | inl (tls, loads, loaded) ↦ inl (
        url,
        tls,
        parsed,
        loaded,
        rw (parsed, loads) (Connects-connect_with sdk cfg (connection_options sdk cfg url tls) w),
      )
    ]
  ]
