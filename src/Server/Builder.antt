-- ===== src/Server/Builder.antt =====
-- crates/altair-server/src: builder.rs, middleware.rs, health.rs and server.rs. The crates axum,
-- tower-http and tokio are the parameter `Axum`; `W` is everything outside of the crate.
use altair_rs.Prelude.{ℕ, ◌*◌, Bool, true, false, Option, none, some, if◌then◌else◌}
use altair_rs.Prelude.Text.{String, ◌+++◌}
use altair_rs.Prelude.Async.{Fut, Result as AsyncResult, ok, err, and_then, map_error}
use altair_rs.Retry.Config.{from_secs}
use altair_rs.Server.Error.{Result, bind_failed, io_failed, configuration, shutdown_timeout}

-- The layers that the stack applies; `C` is the type of CORS layers.
pub data Layer (C : Type 0) : Type 0 where
  trace set_request_id propagate_request_id : Layer C
  cors_layer : C → Layer C
  compression_layer : Layer C
  body_limit_layer timeout_layer : ℕ → Layer C

-- `R` is the type of routers, `H` of handlers, `Y` of health responders, `A` of socket addresses,
-- `N` of listeners and `X` of I/O errors. An error of `parse_addr` is its text.
pub record Axum (W R H Y C A N X : Type 0) : Type 0 where
  pub new_router : R
  pub route_any : String → H → R → R
  pub route_get : String → Y → R → R
  pub merge_router : R → R → R
  pub nest_router : String → R → R → R
  pub layer : Layer C → R → R
  pub permissive : C
  pub default_responder : Y
  pub parse_addr : String → AsyncResult A String
  pub print_addr : A → String
  pub bind : A → Fut W (AsyncResult N X)
  pub local_addr : N → AsyncResult A X

-- `DefaultStack`.
pub record DefaultStack (C : Type 0) : Type 0 where
  pub tracing : Bool
  pub request_id : Bool
  pub timeout : ℕ
  pub body_limit : ℕ
  pub cors : Option C
  pub compression : Bool

pub record ServerBuilder (R Y C : Type 0) : Type 0 where
  pub bind_addr : String
  pub router : R
  pub tracing : Bool
  pub request_id : Bool
  pub timeout : ℕ
  pub body_limit : ℕ
  pub cors : Option C
  pub compression : Bool
  pub health_enabled : Bool
  pub health_path : String
  pub health_responder : Y
  pub shutdown_timeout : Option ℕ

pub record Server (R A N : Type 0) : Type 0 where
  pub router : R
  pub listener : N
  pub local_addr : A
  pub shutdown_timeout : Option ℕ

module _ {W R H Y C A N X : Type 0} (axum : Axum W R H Y C A N X) where
  abbrev pub new_server_builder : ServerBuilder R Y C
  new_server_builder = record {
    bind_addr = "0.0.0.0:8080";
    router = axum.new_router;
    tracing = true;
    request_id = true;
    timeout = from_secs 30;
    body_limit = 2 * 1024 * 1024;
    cors = none;
    compression = false;
    health_enabled = true;
    health_path = "/health";
    health_responder = axum.default_responder;
    shutdown_timeout = none;
  }

  abbrev pub bind_socket : A → ServerBuilder R Y C → ServerBuilder R Y C
  bind_socket addr self = record self { bind_addr = axum.print_addr addr }

  abbrev pub add_route : String → H → ServerBuilder R Y C → ServerBuilder R Y C
  add_route path handler self = record self { router = axum.route_any path handler self.router }

  abbrev pub add_merged : R → ServerBuilder R Y C → ServerBuilder R Y C
  add_merged other self = record self { router = axum.merge_router other self.router }

  abbrev pub add_nested : String → R → ServerBuilder R Y C → ServerBuilder R Y C
  add_nested prefix other self = record self { router = axum.nest_router prefix other self.router }

  abbrev pub enable_cors : ServerBuilder R Y C → ServerBuilder R Y C
  enable_cors self = record self { cors = some axum.permissive }

  -- `health::install`.
  abbrev pub install : R → Bool → String → Y → R
  install router enabled path responder =
      if enabled then axum.route_get path responder router else router

  abbrev pub layer_if : Bool → Layer C → R → R
  layer_if on l router = if on then axum.layer l router else router

  abbrev pub with_cors : Option C → R → R
  with_cors none router = router
  with_cors (some cors) router = axum.layer (cors_layer cors) router

  abbrev pub with_request_id : Bool → R → R
  with_request_id true router = axum.layer set_request_id (axum.layer propagate_request_id router)
  with_request_id false router = router

  -- `DefaultStack::apply`.
  unfoldable pub apply_stack : DefaultStack C → R → R
  apply_stack self router0 =
      let router1 = axum.layer (timeout_layer self.timeout) router0 in
      let router2 = axum.layer (body_limit_layer self.body_limit) router1 in
      let router3 = layer_if self.compression compression_layer router2 in
      let router4 = with_cors self.cors router3 in
      let router5 = with_request_id self.request_id router4 in layer_if self.tracing trace router5

  abbrev pub stack_of : ServerBuilder R Y C → DefaultStack C
  stack_of self = record {
    tracing = self.tracing;
    request_id = self.request_id;
    timeout = self.timeout;
    body_limit = self.body_limit;
    cors = self.cors;
    compression = self.compression;
  }

  abbrev pub router_of : ServerBuilder R Y C → R
  router_of self =
      apply_stack (stack_of self)
        (install self.router self.health_enabled self.health_path self.health_responder)

  -- `ServerBuilder::build`.
  unfoldable pub build_server : ServerBuilder R Y C → Fut W (Result (Server R A N) X)
  unfolding apply_stack
  build_server self w =
      and_then
        (
          map_error
              (λ e.
                configuration
                  (◌+++◌ "invalid bind address '" (◌+++◌ self.bind_addr (◌+++◌ "': " e))))
              (axum.parse_addr self.bind_addr),
          w,
        )
        λ addr w1.
          let (bound, w2) = axum.bind addr w1 in
          and_then (map_error (bind_failed self.bind_addr) bound, w2)
            λ listener w3.
              and_then (map_error io_failed (axum.local_addr listener), w3)
                λ local w4. (
                  ok (record {
                    router = router_of self;
                    listener = listener;
                    local_addr = local;
                    shutdown_timeout = self.shutdown_timeout;
                  }),
                  w4,
                )

-- The setters that store a value.
module _ {R Y C : Type 0} where
  abbrev pub set_bind_addr : String → ServerBuilder R Y C → ServerBuilder R Y C
  set_bind_addr addr self = record self { bind_addr = addr }

  abbrev pub set_request_timeout : ℕ → ServerBuilder R Y C → ServerBuilder R Y C
  set_request_timeout d self = record self { timeout = d }

  abbrev pub set_body_limit : ℕ → ServerBuilder R Y C → ServerBuilder R Y C
  set_body_limit bytes self = record self { body_limit = bytes }

  abbrev pub set_shutdown_timeout : ℕ → ServerBuilder R Y C → ServerBuilder R Y C
  set_shutdown_timeout d self = record self { shutdown_timeout = some d }

  abbrev pub disable_tracing : ServerBuilder R Y C → ServerBuilder R Y C
  disable_tracing self = record self { tracing = false }

  abbrev pub disable_request_id : ServerBuilder R Y C → ServerBuilder R Y C
  disable_request_id self = record self { request_id = false }

  abbrev pub enable_cors_with : C → ServerBuilder R Y C → ServerBuilder R Y C
  enable_cors_with layer self = record self { cors = some layer }

  abbrev pub enable_compression : ServerBuilder R Y C → ServerBuilder R Y C
  enable_compression self = record self { compression = true }

  abbrev pub set_health_path : String → ServerBuilder R Y C → ServerBuilder R Y C
  set_health_path path self = record self { health_path = path }

  abbrev pub set_health_response : Y → ServerBuilder R Y C → ServerBuilder R Y C
  set_health_response responder self = record self { health_responder = responder }

  abbrev pub disable_health : ServerBuilder R Y C → ServerBuilder R Y C
  disable_health self = record self { health_enabled = false }

-- `axum::serve` with its graceful shutdown, and `tokio::time::timeout` around it, where none is
-- the timeout.
pub record Serving (W R N X : Type 0) : Type 0 where
  pub serve : N → R → Fut W (AsyncResult (Unit {0}) X)
  pub timeout : ℕ → Fut W (AsyncResult (Unit {0}) X) → Fut W (Option (AsyncResult (Unit {0}) X))

abbrev pub drained_in : {X : Type 0} → ℕ → Option (AsyncResult (Unit {0}) X) → Result (Unit {0}) X
drained_in d (some res) = map_error io_failed res
drained_in d none = err (shutdown_timeout d)

module _ {W R N X : Type 0} (serving : Serving W R N X) where
  abbrev pub serve_within :
      Option ℕ → Fut W (AsyncResult (Unit {0}) X) → Fut W (Result (Unit {0}) X)
  serve_within (some d) serve w =
      let (answer, w') = serving.timeout d serve w in (drained_in d answer, w')
  serve_within none serve w = let (res, w') = serve w in (map_error io_failed res, w')

  -- `Server::run_with_shutdown`.
  unfoldable pub serve_with_shutdown : {A : Type 0} → Server R A N → Fut W (Result (Unit {0}) X)
  serve_with_shutdown self w =
      serve_within self.shutdown_timeout (serving.serve self.listener self.router) w
