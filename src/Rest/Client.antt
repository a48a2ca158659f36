-- ===== src/Rest/Client.antt =====
-- crates/altair-rest/src: config.rs, client.rs and json.rs. A `Duration` is its number of
-- nanoseconds.
use altair_rs.Prelude.{
  ℕ, ◌*◌, Bool, true, Option, none, some, List, [], ◌∷◌, ◌++◌, map, length, ltb, ◌==◌,
  if◌then◌else◌,
}
use altair_rs.Prelude.Text.{String, ◌+++◌}
use altair_rs.Prelude.Async.{Fut, Result as AsyncResult, ok, err, and_then, map_error, ◌>>=◌}
use altair_rs.Retry.Config.{from_secs, from_millis}
use altair_rs.Rest.Http.{
  Error, middleware_failed, http_failed, decode_failed, bad_url, invalid_header, response_too_large,
  Method, get, post, put, patch, Http, Middleware, retry_transient, tracing, added, Redirects,
  no_redirects, limited, Setup,
}

pub record ClientBuilder (U H K Z : Type 0) : Type 0 where
  pub base_url : Option U
  pub timeout : ℕ
  pub connect_timeout : ℕ
  pub user_agent : String
  pub headers : H
  pub bearer_token : Option String
  pub basic_auth : Option (String × Option String)
  pub retry_max_attempts : ℕ
  pub retry_initial_interval : ℕ
  pub retry_max_interval : ℕ
  pub max_redirects : ℕ
  pub response_body_limit : ℕ
  pub enable_tracing : Bool
  pub reqwest_customize : Option (K → K)
  pub extra_middleware : List Z

pub record Client (U I : Type 0) : Type 0 where
  pub inner : I
  pub base_url : Option U
  pub bearer_token : Option String
  pub basic_auth : Option (String × Option String)
  pub response_body_limit : ℕ

module _ {U I X E H N V K J Z : Type 0} (setup : Setup U I X E H N V K J Z) where
  abbrev pub default_client : ClientBuilder U H K Z
  default_client = record {
    base_url = none;
    timeout = from_secs 30;
    connect_timeout = from_secs 10;
    user_agent = setup.crate_agent;
    headers = setup.insert_header setup.user_agent_name setup.crate_agent_value setup.no_headers;
    bearer_token = none;
    basic_auth = none;
    retry_max_attempts = 3;
    retry_initial_interval = from_millis 100;
    retry_max_interval = from_secs 5;
    max_redirects = 10;
    response_body_limit = 16 * 1024 * 1024;
    enable_tracing = true;
    reqwest_customize = none;
    extra_middleware = [];
  }

  abbrev pub set_base_url :
      {M D : Type 0}
      → String
      → ClientBuilder U H K Z
      → AsyncResult (ClientBuilder U H K Z) (Error M X D E)
  set_base_url url self = do
    parsed ← map_error bad_url (setup.parse_url url)
    ok (record self { base_url = some parsed })

  -- The header is set where the text is a header value.
  abbrev pub agent_header : AsyncResult V String → H → H
  agent_header (ok value) headers = setup.insert_header setup.user_agent_name value headers
  agent_header (err e) headers = headers

  abbrev pub set_user_agent : String → ClientBuilder U H K Z → ClientBuilder U H K Z
  set_user_agent ua self = record self {
    user_agent = ua;
    headers = agent_header (setup.header_value ua) self.headers;
  }

  abbrev pub set_default_header :
      {M D : Type 0}
      → String
      → String
      → ClientBuilder U H K Z
      → AsyncResult (ClientBuilder U H K Z) (Error M X D E)
  set_default_header name value self = do
    header_name ←
        map_error (λ e. invalid_header (◌+++◌ "name '" (◌+++◌ name (◌+++◌ "': " e))))
          (setup.header_name name)
    header_value ← map_error (λ e. invalid_header (◌+++◌ "value: " e)) (setup.header_value value)
    ok (record self { headers = setup.insert_header header_name header_value self.headers })

  abbrev pub redirect_policy : ℕ → Redirects
  redirect_policy n = if n == 0 then no_redirects else limited n

  abbrev pub customized : Option (K → K) → K → K
  customized none builder = builder
  customized (some customize) builder = customize builder

  -- The chain, the first middleware outermost.
  abbrev pub chain_of : ClientBuilder U H K Z → List (Middleware Z)
  chain_of self =
      (if self.retry_max_attempts == 0
        then []
        else retry_transient self.retry_initial_interval self.retry_max_interval
            self.retry_max_attempts
          ∷ [])
      ++ ((if self.enable_tracing then tracing ∷ [] else []) ++ map added self.extra_middleware)

  -- `ClientBuilder::build`.
  unfoldable pub build_client :
      {M D : Type 0} → ClientBuilder U H K Z → AsyncResult (Client U I) (Error M X D E)
  build_client self = do
    reqwest_client ← map_error http_failed (
        setup.build_reqwest (
          customized self.reqwest_customize (
            setup.new_reqwest self.timeout self.connect_timeout (redirect_policy self.max_redirects)
              self.headers)))
    ok (record {
      inner = setup.with_chain reqwest_client (chain_of self);
      base_url = self.base_url;
      bearer_token = self.bearer_token;
      basic_auth = self.basic_auth;
      response_body_limit = self.response_body_limit;
    })

-- The setters that store a value.
module _ {U H K Z : Type 0} where
  abbrev pub set_timeout : ℕ → ClientBuilder U H K Z → ClientBuilder U H K Z
  set_timeout d self = record self { timeout = d }

  abbrev pub set_connect_timeout : ℕ → ClientBuilder U H K Z → ClientBuilder U H K Z
  set_connect_timeout d self = record self { connect_timeout = d }

  abbrev pub set_bearer_token : String → ClientBuilder U H K Z → ClientBuilder U H K Z
  set_bearer_token token self = record self { bearer_token = some token }

  abbrev pub set_basic_auth : String → Option String → ClientBuilder U H K Z → ClientBuilder U H K Z
  set_basic_auth user password self = record self { basic_auth = some (user, password) }

  abbrev pub set_retry_max_attempts : ℕ → ClientBuilder U H K Z → ClientBuilder U H K Z
  set_retry_max_attempts n self = record self { retry_max_attempts = n }

  abbrev pub set_retry_initial_interval : ℕ → ClientBuilder U H K Z → ClientBuilder U H K Z
  set_retry_initial_interval d self = record self { retry_initial_interval = d }

  abbrev pub set_retry_max_interval : ℕ → ClientBuilder U H K Z → ClientBuilder U H K Z
  set_retry_max_interval d self = record self { retry_max_interval = d }

  abbrev pub set_enable_tracing : Bool → ClientBuilder U H K Z → ClientBuilder U H K Z
  set_enable_tracing on self = record self { enable_tracing = on }

  abbrev pub set_max_redirects : ℕ → ClientBuilder U H K Z → ClientBuilder U H K Z
  set_max_redirects n self = record self { max_redirects = n }

  abbrev pub set_response_body_limit : ℕ → ClientBuilder U H K Z → ClientBuilder U H K Z
  set_response_body_limit bytes self = record self { response_body_limit = bytes }

  abbrev pub with_reqwest_builder : (K → K) → ClientBuilder U H K Z → ClientBuilder U H K Z
  with_reqwest_builder customize self = record self { reqwest_customize = some customize }

  abbrev pub with_middleware : Z → ClientBuilder U H K Z → ClientBuilder U H K Z
  with_middleware middleware self = record self {
    extra_middleware = self.extra_middleware ++ (middleware ∷ []);
  }

abbrev pub checked_length : {M X D E : Type 0} → ℕ → List ℕ → AsyncResult (List ℕ) (Error M X D E)
checked_length body_limit bytes =
    if ltb body_limit (length bytes)
    then err (response_too_large (length bytes) body_limit)
    else ok bytes

-- The content length that the response states.
abbrev pub declared : {M X D E : Type 0} → ℕ → Option ℕ → AsyncResult (Unit {0}) (Error M X D E)
declared body_limit none = ok tt
declared body_limit (some len) =
    if ltb body_limit len then err (response_too_large len body_limit) else ok tt

module _ {W U I Q P M X E : Type 0} (http : Http W U I Q P M X E) where
  abbrev pub resolve_on : Option U → String → AsyncResult U E
  resolve_on (some base) url = http.join base url
  resolve_on none url = http.parse url

  -- `Client::resolve_url`, up to the wrapping of its error.
  abbrev pub resolve_url : Client U I → String → AsyncResult U E
  resolve_url self url = resolve_on self.base_url url

  abbrev pub bearer : Option String → Q → Q
  bearer none builder = builder
  bearer (some token) builder = http.bearer_auth token builder

  abbrev pub basic : Option (String × Option String) → Q → Q
  basic none builder = builder
  basic (some (user, password)) builder = http.basic_auth user password builder

  abbrev pub prepare : Client U I → Q → Q
  prepare self builder = basic self.basic_auth (bearer self.bearer_token builder)

  abbrev pub on_url : Client U I → Method → String → AsyncResult U E → Q
  on_url self method url (ok u) = http.request_url self.inner method u
  on_url self method url (err e) = http.request_text self.inner method url

  -- `get`, `post`, `put`, `delete`, `patch`, `head` and `request`.
  abbrev pub request : Client U I → Method → String → Q
  request self method url = prepare self (on_url self method url (resolve_url self url))

  -- The payload type is `T`; `from_slice` is serde_json's at `T`.
  module _ {T D : Type 0} (from_slice : List ℕ → AsyncResult T D) where
    unfoldable pub decode_json : ℕ → P → Fut W (AsyncResult T (Error M X D E))
    decode_json body_limit response0 w =
        and_then (map_error http_failed (http.error_for_status response0), w)
          λ response w1.
            and_then (declared body_limit (http.content_length response), w1)
              λ _ w2.
                let (read, w3) = http.bytes response w2 in
                and_then (map_error http_failed read, w3)
                  λ bytes w4.
                    and_then (checked_length body_limit bytes, w4)
                      λ body w5. (map_error decode_failed (from_slice body), w5)

    -- `send().await.map_err(Error::from)?`, then `decode_json`.
    abbrev pub sent : ℕ → Q → Fut W (AsyncResult T (Error M X D E))
    sent body_limit builder w =
        let (answer, w1) = http.send builder w in
        and_then (map_error middleware_failed answer, w1)
          λ response w2. decode_json body_limit response w2

    abbrev pub get_json : Client U I → String → Fut W (AsyncResult T (Error M X D E))
    get_json self url w = sent self.response_body_limit (request self get url) w

    -- `send_json`, with what serde_json gives for the body.
    abbrev pub send_json : Q → AsyncResult (List ℕ) D → ℕ → Fut W (AsyncResult T (Error M X D E))
    send_json builder serialised body_limit w =
        and_then (map_error decode_failed serialised, w)
          λ body w1.
            sent body_limit (http.body body (http.header "content-type" "application/json" builder))
              w1

    -- `post_json`, `put_json` and `patch_json`.
    abbrev pub post_json :
        Client U I → String → AsyncResult (List ℕ) D → Fut W (AsyncResult T (Error M X D E))
    post_json self url serialised w =
        send_json (request self post url) serialised self.response_body_limit w

    abbrev pub put_json :
        Client U I → String → AsyncResult (List ℕ) D → Fut W (AsyncResult T (Error M X D E))
    put_json self url serialised w =
        send_json (request self put url) serialised self.response_body_limit w

    abbrev pub patch_json :
        Client U I → String → AsyncResult (List ℕ) D → Fut W (AsyncResult T (Error M X D E))
    patch_json self url serialised w =
        send_json (request self patch url) serialised self.response_body_limit w
