-- ===== src/Rest/Http.antt =====
-- crates/altair-rest/src: error.rs, and what the crates reqwest, reqwest_middleware, http and url
-- give. `W` is everything outside of the crate.
use altair_rs.Prelude.{ℕ, Option, List}
use altair_rs.Prelude.Text.{String}
use altair_rs.Prelude.Async.{Fut, Result as AsyncResult}

-- `M`, `X`, `D` and `E` are the types of errors of the middleware, of reqwest, of serde_json and of
-- url.
pub data Error (M X D E : Type 0) : Type 0 where
  middleware_failed : M → Error M X D E
  http_failed : X → Error M X D E
  decode_failed : D → Error M X D E
  bad_url : E → Error M X D E
  invalid_header : String → Error M X D E
  response_too_large : (received limit : ℕ) → Error M X D E

pub data Method : Type 0 where
  get post put delete patch head : Method
  custom : String → Method

-- `U` is the type of URLs, `I` of clients with their middleware, `Q` of request builders and `P` of
-- responses.
pub record Http (W U I Q P M X E : Type 0) : Type 0 where
  pub parse : String → AsyncResult U E
  pub join : U → String → AsyncResult U E
  pub request_url : I → Method → U → Q
  pub request_text : I → Method → String → Q
  pub bearer_auth : String → Q → Q
  pub basic_auth : String → Option String → Q → Q
  pub header : String → String → Q → Q
  pub body : List ℕ → Q → Q
  pub send : Q → Fut W (AsyncResult P M)
  pub error_for_status : P → AsyncResult P X
  pub content_length : P → Option ℕ
  pub bytes : P → Fut W (AsyncResult (List ℕ) X)

-- A retry policy with its bounds and its number of retries, tracing, or one that is added.
pub data Middleware (Z : Type 0) : Type 0 where
  retry_transient : (initial most retries : ℕ) → Middleware Z
  tracing : Middleware Z
  added : Z → Middleware Z

pub data Redirects : Type 0 where
  no_redirects : Redirects
  limited : ℕ → Redirects

-- What `build` takes: `H` is the type of header maps, `N` and `V` of header names and values, `K`
-- of builders of reqwest, `J` of its clients and `Z` of further middleware.
pub record Setup (U I X E H N V K J Z : Type 0) : Type 0 where
  pub parse_url : String → AsyncResult U E
  pub header_name : String → AsyncResult N String
  pub header_value : String → AsyncResult V String
  pub user_agent_name : N
  pub crate_agent : String
  pub crate_agent_value : V
  pub no_headers : H
  pub insert_header : N → V → H → H
  pub new_reqwest : (timeout connect_timeout : ℕ) → Redirects → H → K
  pub build_reqwest : K → AsyncResult J X
  pub with_chain : J → List (Middleware Z) → I
