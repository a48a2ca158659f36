-- ===== src/Wf/Tests/Function.antt =====
-- Runs of crates/altair-wf/src/function, and its theorem at a concrete input.
use altair_rs.Prelude.{ℕ, ◌≡◌, refl, [], ◌∷◌, ◌+◌, some}
use altair_rs.Prelude.Text.{String}
use altair_rs.Prelude.StringMap.{insert, lookup}
use altair_rs.Prelude.Async as Async
use altair_rs.Wf.Error.{pattern_stopped, invalid_input, ok, err}
use altair_rs.Wf.Function.{
  into_function_input, validate_function, get, StoredHandler, register, dispatch,
}
use altair_rs.Wf.Function.Payload.{with_result, new_input, failure}
use altair_rs.Wf.Function.Activity.{
  Host, Handler, returned, panicked, text_payload, execute_function,
}
use altair_rs.Wf.Function.Activity.Executed.{Executes, execute_function_lem}

accepted : validate_function (λ s. s) (new_input "send-mail_2") ≡ ok tt
unfolding validate_function
accepted = refl

refused :
    validate_function (λ s. s) (new_input "2fast")
    ≡ err (invalid_input "function name 2fast must start with an ASCII letter")
unfolding validate_function
refused = refl

abbrev broken : StoredHandler ℕ
broken input w = (Async.err "boom", w)

fails :
    dispatch
      (λ s. s)
      (register [] "fetch" broken).1
      "fetch"
      (into_function_input (new_input "fetch"))
      4
    ≡ (err (pattern_stopped "fetch" "boom"), 4)
unfolding dispatch register insert lookup
fails = refl

-- The outside state is the time in nanoseconds; an error is its text.
abbrev host : Host ℕ String
host = record { instant = λ w. w; since_epoch = λ w. some w; debug = λ s. s; print = λ e. some e }

abbrev upper : Handler ℕ String
upper input w = (returned (Async.ok (with_result (("out", "A") ∷ []))), w + 2500000)

abbrev panics : Handler ℕ String
panics input w = (panicked (text_payload "intentional"), w + 7)

-- A panic is reported, and the activity does not fail.
panic_reported : execute_function host (("panic", panics) ∷ []) (new_input "panic") 1000000 ≡ (
  Async.ok (record (failure "panic" "handler panicked: intentional") {
    duration = 7;
    elapsed_nanos = 7;
    started_at_millis = 1;
    finished_at_millis = 1;
  }),
  1000007,
)
unfolding execute_function get lookup validate_function
panic_reported = refl

execute_function_lem_example :
    Executes host
      (("upper", upper) ∷ [])
      (new_input "upper")
      0
      (execute_function host (("upper", upper) ∷ []) (new_input "upper") 0)
execute_function_lem_example =
    execute_function_lem host (("upper", upper) ∷ []) (new_input "upper") 0
