-- ===== src/Rest/Tests.antt =====
-- Runs of the functions of crates/altair-rest/src, and the theorem at a concrete input.
use altair_rs.Prelude.{ℕ, ◌+◌, ◌≡◌, refl, none, some, List, [], ◌∷◌}
use altair_rs.Prelude.Text.{String}
use altair_rs.Prelude.Async.{Result as AsyncResult, ok, err}
use altair_rs.Rest.Http.{Http, response_too_large}
use altair_rs.Rest.Client.{Client, decode_json, get_json}
use altair_rs.Rest.Decoded.{Decodes, Decodes-decode_json}

-- A response is its body; it does not state its length. The outside state counts the bytes read.
abbrev streams : Http ℕ String ℕ String (List ℕ) String String String
streams = record {
  parse = λ url. ok url;
  join = λ base url. ok url;
  request_url = λ inner method url. url;
  request_text = λ inner method url. url;
  bearer_auth = λ token builder. builder;
  basic_auth = λ user password builder. builder;
  header = λ name value builder. builder;
  body = λ bytes builder. builder;
  send = λ builder w. (ok (1 ∷ 2 ∷ 3 ∷ []), w);
  error_for_status = λ response. ok response;
  content_length = λ response. none;
  bytes = λ response w. (ok response, w + 3);
}

abbrev first : List ℕ → AsyncResult ℕ String
first [] = err "empty"
first (n ∷ bytes) = ok n

abbrev small : Client String ℕ
small = record {
  inner = 0;
  base_url = none;
  bearer_token = some "token";
  basic_auth = none;
  response_body_limit = 2;
}

-- A body above the limit is read whole, and refused then.
read_whole : get_json streams first small "https://a" 0 ≡ (err (response_too_large 3 2), 3)
unfolding decode_json
read_whole = refl

Decodes-decode_json_example :
    Decodes streams first 3 (7 ∷ 8 ∷ []) 0 (decode_json streams first 3 (7 ∷ 8 ∷ []) 0)
Decodes-decode_json_example = Decodes-decode_json streams first 3 (7 ∷ 8 ∷ []) 0
