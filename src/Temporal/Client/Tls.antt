-- ===== src/Temporal/Client/Tls.antt =====
-- crates/altair-temporal/src/client.rs: which TLS options the configured files give. `files` is what
-- the file system holds.
use altair_rs.Prelude.{ℕ, ◌≡◌, refl, ◌⊎◌, inl, inr, Option, none, some, List}
use altair_rs.Prelude.Text.{String}
use altair_rs.Prelude.Async.{Result as AsyncResult, ok, err, Result-cases}
use altair_rs.Temporal.Error.{configuration}
use altair_rs.Temporal.Config.{TlsConfig}
use altair_rs.Temporal.Client.{Sdk, ClientTls, TlsOptions, read_ca, read_pair, build_tls, unread}

module _ (files : String → AsyncResult (List ℕ) String) where
  -- The content of an optional file: absent, or read.
  abbrev pub Loads : Option String → Option (List ℕ) → Type 0
  Loads none none = Unit {0}
  Loads (some path) (some bytes) = files path ≡ ok bytes
  Loads _ _ = ⊥

  -- Certificate and key: both unset, or both set and read.
  abbrev pub LoadsPair : Option String → Option String → Option ClientTls → Type 0
  LoadsPair none none none = Unit {0}
  LoadsPair (some cert) (some key) (some tls) =
      (files cert ≡ ok tls.client_cert) × (files key ≡ ok tls.client_private_key)
  LoadsPair _ _ _ = ⊥

  pub record LoadsAll (cfg : TlsConfig) (options : TlsOptions) : Type 0 where
    pub ca : Loads cfg.server_root_ca_cert options.server_root_ca_cert
    pub pair : LoadsPair cfg.client_cert cfg.client_key options.client_tls_options
    pub domain : options.domain ≡ cfg.server_name_override

  unreadable : (path e : String) (bytes : List ℕ) → files path ≡ err e → files path ≡ ok bytes → ⊥
  unreadable path e bytes p q = cc

  ca_unreadable :
      (path e : String) → files path ≡ err e → (ca : Option (List ℕ)) → Loads (some path) ca → ⊥
  ca_unreadable path e failed none h = h
  ca_unreadable path e failed (some bytes) h = unreadable path e bytes failed h

  cert_unreadable :
      (cert key e : String)
      → files cert ≡ err e
      → (tls : Option ClientTls) → LoadsPair (some cert) (some key) tls
      → ⊥
  cert_unreadable cert key e failed none h = h
  cert_unreadable cert key e failed (some tls) (h, _) = unreadable cert e tls.client_cert failed h

  key_unreadable :
      (cert key e : String)
      → files key ≡ err e
      → (tls : Option ClientTls) → LoadsPair (some cert) (some key) tls
      → ⊥
  key_unreadable cert key e failed none h = h
  key_unreadable cert key e failed (some tls) (_, h) =
      unreadable key e tls.client_private_key failed h

module _ {W B L N C : Type 0} (sdk : Sdk W B L N C)
    (files : String → AsyncResult (List ℕ) String) where
  -- Reading a file changes nothing.
  abbrev pub Reads : Type 0
  Reads = (path : String) (w : W) → sdk.read path w ≡ (files path, w)

  read_ca-cases :
      (path : Option String) (w : W)
      → Reads
      → ((ca : Option (List ℕ)) × (read_ca sdk path w ≡ (ok ca, w)) × Loads files path ca)
        ⊎ ((text : String) × (read_ca sdk path w ≡ (err (configuration text), w))
            × ((ca : Option (List ℕ)) → Loads files path ca → ⊥))
  read_ca-cases none w reads = inl (none, refl, tt)
  read_ca-cases (some path) w reads = elim (Result-cases (files path)) [
    | inl (bytes, e) ↦ inl (some bytes, rw (reads path w, e) refl, e)
    | inr (e, failed) ↦ inr (
      unread "server_root_ca_cert" path e,
      rw (reads path w, failed) refl,
      ca_unreadable files path e failed,
    )
  ]

  -- What reading a pair answers where the state stays.
  abbrev PairCases : Option String → Option String → W → Type 0
  PairCases cert key w =
      ((tls : Option ClientTls) × (read_pair sdk cert key w ≡ (ok tls, w))
        × LoadsPair files cert key tls)
      ⊎ ((text : String) × (read_pair sdk cert key w ≡ (err (configuration text), w))
          × ((tls : Option ClientTls) → LoadsPair files cert key tls → ⊥))

  abbrev unpaired : String
  unpaired = "client_cert and client_key must both be set or both unset"

  read_pair-cases : (cert key : Option String) (w : W) → Reads → PairCases cert key w
  read_pair-cases none none w reads = inl (none, refl, tt)
  read_pair-cases none (some key) w reads = inr (unpaired, refl, λ tls h. h)
  read_pair-cases (some cert) none w reads = inr (unpaired, refl, λ tls h. h)
  read_pair-cases (some cert) (some key) w reads = elim (Result-cases (files cert)) [
    | inr (e, failed) ↦ inr (
      unread "client_cert" cert e,
      rw (reads cert w, failed) refl,
      cert_unreadable files cert key e failed,
    )
    | inl (cert_bytes, e) ↦ elim (Result-cases (files key)) [
      | inr (t, failed) ↦ inr (
        unread "client_key" key t,
        rw (reads cert w, e, reads key w, failed) refl,
        key_unreadable files cert key t failed,
      )
      | inl (key_bytes, k) ↦ inl (
        some (record { client_cert = cert_bytes; client_private_key = key_bytes }),
        rw (reads cert w, e, reads key w, k) refl,
        (e, k),
      )
    ]
  ]

  -- Reading the files of a configuration gives exactly the options that hold their contents, with
  -- certificate and key both set or both unset; where there are none, since a file cannot be read
  -- or one of certificate and key is missing, it answers a configuration error.
  pub build_tls_lem :
      (cfg : TlsConfig) (w : W)
      → Reads
      → ((options : TlsOptions) × (build_tls sdk cfg w ≡ (ok options, w))
          × LoadsAll files cfg options)
        ⊎ ((text : String) × (build_tls sdk cfg w ≡ (err (configuration text), w))
            × ((options : TlsOptions) → LoadsAll files cfg options → ⊥))
  unfolding build_tls
  build_tls_lem cfg w reads = elim (read_ca-cases cfg.server_root_ca_cert w reads) [
    | inr (text, failed, none_loads) ↦
        inr (text, rw failed refl, λ options all. none_loads options.server_root_ca_cert all.ca)
    | inl (ca, e, loaded) ↦ elim (read_pair-cases cfg.client_cert cfg.client_key w reads) [
      | inr (text, failed, none_loads) ↦
          inr (
            text,
            rw (e, failed) refl,
            λ options all. none_loads options.client_tls_options all.pair,
          )
      | inl (tls, p, paired) ↦ inl (
        record {
          server_root_ca_cert = ca;
          domain = cfg.server_name_override;
          client_tls_options = tls;
        },
        rw (e, p) refl,
        record { ca = loaded; pair = paired; domain = refl },
      )
    ]
  ]
