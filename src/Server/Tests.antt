-- ===== src/Server/Tests.antt =====
-- Runs of the functions of crates/altair-server/src, and the theorems at concrete inputs.
use altair_rs.Prelude.{
  ℕ, ◌+◌, ◌≤◌, ◌<◌, ◌≡◌, refl, true, false, Option, none, some, List, [], ◌∷◌, arith, leb, le→leb,
  if◌then◌else◌,
}
use altair_rs.Prelude.Text.{String}
use altair_rs.Prelude.Async.{Fut, Result as AsyncResult, ok, err}
use altair_rs.Server.Error.{shutdown_timeout}
use altair_rs.Server.Builder.{
  Layer, trace, set_request_id, propagate_request_id, body_limit_layer, timeout_layer, Axum,
  DefaultStack, apply_stack, stack_of, new_server_builder, Server, Serving, serve_with_shutdown,
}
use altair_rs.Server.Layers.{documented, wrapped, apply_stack_lem}
use altair_rs.Server.Shutdown.{Timing, serve_with_shutdown_bounded}

-- A router is the list of its layers, the outermost first.
abbrev listing : Axum ℕ (List (Layer ℕ)) ℕ ℕ ℕ String ℕ String
listing = record {
  new_router = [];
  route_any = λ path handler router. router;
  route_get = λ path responder router. router;
  merge_router = λ other router. router;
  nest_router = λ prefix other router. router;
  layer = λ l router. l ∷ router;
  permissive = 0;
  default_responder = 0;
  parse_addr = λ text. ok text;
  print_addr = λ addr. addr;
  bind = λ addr w. (ok 0, w);
  local_addr = λ listener. ok "0.0.0.0:8080";
}

default_layers :
    apply_stack listing (stack_of listing (new_server_builder listing)) []
    ≡ trace
      ∷ set_request_id
      ∷ propagate_request_id
      ∷ body_limit_layer 2097152
      ∷ timeout_layer 30000000000
      ∷ []
unfolding apply_stack
default_layers = refl

abbrev bare : DefaultStack ℕ
bare = record {
  tracing = true;
  request_id = false;
  timeout = 5;
  body_limit = 100;
  cors = some 1;
  compression = false;
}

apply_stack_lem_example : apply_stack listing bare [] ≡ wrapped listing (documented bare) []
apply_stack_lem_example = apply_stack_lem listing bare []

-- The outside state is the time; the shutdown is asked for at 100, and draining takes 3.
abbrev last_call : ℕ → ℕ
last_call w = if leb w 100 then 103 else w + 3

abbrev cut_at :
    ℕ → Fut ℕ (AsyncResult (Unit {0}) String) → Fut ℕ (Option (AsyncResult (Unit {0}) String))
cut_at d fut w = if leb (fut w).1 (w + d) then (some (fut w).0, (fut w).1) else (none, w + d)

abbrev serving : Serving ℕ ℕ ℕ String
serving = record { serve = λ listener router w. (ok tt, last_call w); timeout = cut_at }

meets_deadline :
    (d : ℕ) (fut : Fut ℕ (AsyncResult (Unit {0}) String)) (w : ℕ)
    → (fut w).1 ≤ w + d
    → cut_at d fut w ≡ (some (fut w).0, (fut w).1)
meets_deadline d fut w h = rw (le→leb (fut w).1 (w + d) h) refl

late :
    (d : ℕ) (fut : Fut ℕ (AsyncResult (Unit {0}) String)) (w : ℕ)
    → w + d < (fut w).1
    → ((cut_at d fut w).0 ≡ none) × ((cut_at d fut w).1 ≡ w + d)
late d fut w h =
    let no_more : leb (fut w).1 (w + d) ≡ false = ground arith in rw no_more (refl, refl)

abbrev timing : Timing serving
timing = record {
  now = λ w. w;
  asked = λ w. if leb w 100 then 100 else w;
  timeout_in_time = meets_deadline;
  timeout_late = late;
  serves_until = λ listener router w. ground arith;
}

-- A timeout of 30: the run that starts at 0 ends at 30, long before the shutdown.
abbrev hasty : Server ℕ String ℕ
hasty = record { router = 0; listener = 0; local_addr = ""; shutdown_timeout = some 30 }

cut_off : serve_with_shutdown serving hasty 0 ≡ (err (shutdown_timeout 30), 30)
unfolding serve_with_shutdown
cut_off = refl

serve_with_shutdown_bounded_example :
    ((serve_with_shutdown serving hasty 0).1 ≤ 30)
    × (30 < 100
        → ((serve_with_shutdown serving hasty 0).0 ≡ err (shutdown_timeout 30))
          × ((serve_with_shutdown serving hasty 0).1 ≡ 30))
serve_with_shutdown_bounded_example = serve_with_shutdown_bounded serving timing hasty 30 0 refl
