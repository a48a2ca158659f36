-- ===== src/Wf/Function/Activity.antt =====
-- crates/altair-wf/src/function/activity.rs. A handler is a step that returns or panics; `E` is the
-- type of handler errors. The heartbeat, a timer of the SDK that never ends first, is left out.
pub mod Executed
use altair_rs.Prelude.{ℕ, ◌-◌, ◌/◌, Bool, true, false, Option, none, some, [], if◌then◌else◌}
use altair_rs.Prelude.Text.{String, ◌+++◌}
use altair_rs.Prelude.Async as Async
use altair_rs.Prelude.Async.{Fut}
use altair_rs.Temporal.Activity.{ApplicationFailure}
use altair_rs.Wf.Error.{Error, display, Result, ok, err}
use altair_rs.Wf.Function.{
  FunctionInput, FunctionOutput, FunctionExecutionInput, into_function_input, validate_function,
  Registry, get,
}
use altair_rs.Wf.Function.Payload.{FunctionExecutionOutput, as_u64}

-- What a panic carries: a text, or something else.
pub data PanicPayload : Type 0 where
  text_payload : String → PanicPayload
  other_payload : PanicPayload

-- What `catch_unwind` gives for a handler.
pub data Caught (E : Type 0) : Type 0 where
  returned : Async.Result FunctionOutput E → Caught E
  panicked : PanicPayload → Caught E

abbrev pub Handler : Type 0 → Type 0 → Type 0
Handler W E = FunctionInput → Fut W (Caught E)

-- `Instant::now` in nanoseconds, the nanoseconds since the epoch unless the clock stands before it,
-- the `Debug` form of a text, and `Display` of a handler error, where none is a panic.
pub record Host (W E : Type 0) : Type 0 where
  pub instant : W → ℕ
  pub since_epoch : W → Option ℕ
  pub debug : String → String
  pub print : E → Option String

abbrev pub or_placeholder : Option String → String
or_placeholder none = "<handler error: Display impl panicked>"
or_placeholder (some text) = text

abbrev pub render_panic : PanicPayload → String
render_panic (text_payload s) = "handler panicked: " +++ s
render_panic other_payload = "handler panicked: <non-string payload>"

-- `ActivityError::application` of a failure that is not retried.
abbrev pub permanent : String → Error → ApplicationFailure String
permanent type_name e = record { source = display e; type_name = type_name; non_retryable = true }

abbrev pub checked : {A : Type 0} → String → Result A → Async.Result A (ApplicationFailure String)
checked type_name (ok a) = Async.ok a
checked type_name (err e) = Async.err (permanent type_name e)

abbrev pub millis_or_zero : Option ℕ → ℕ
millis_or_zero none = 0
millis_or_zero (some nanos) = as_u64 (nanos / 1000000)

module _ {W E : Type 0} (host : Host W E) where
  abbrev pub unix_millis : W → ℕ
  unix_millis w = millis_or_zero (host.since_epoch w)

  abbrev pub render_handler_error : E → String
  render_handler_error e = or_placeholder (host.print e)

  -- The output, from a state before the handler to one after it.
  abbrev pub output_of : String → W → W → Caught E → FunctionExecutionOutput
  output_of name w w' (returned (Async.ok output)) = record {
    name = name;
    success = true;
    error = "";
    result = output.result;
    data_bytes = output.data_bytes;
    duration = host.instant w' - host.instant w;
    elapsed_nanos = as_u64 (host.instant w' - host.instant w);
    started_at_millis = unix_millis w;
    finished_at_millis = unix_millis w';
  }
  output_of name w w' (returned (Async.err e)) = record {
    name = name;
    success = false;
    error = render_handler_error e;
    result = [];
    data_bytes = [];
    duration = host.instant w' - host.instant w;
    elapsed_nanos = as_u64 (host.instant w' - host.instant w);
    started_at_millis = unix_millis w;
    finished_at_millis = unix_millis w';
  }
  output_of name w w' (panicked payload) = record {
    name = name;
    success = false;
    error = render_panic payload;
    result = [];
    data_bytes = [];
    duration = host.instant w' - host.instant w;
    elapsed_nanos = as_u64 (host.instant w' - host.instant w);
    started_at_millis = unix_millis w;
    finished_at_millis = unix_millis w';
  }

  abbrev pub run_handler :
      FunctionExecutionInput
      → Handler W E
      → Fut W (Async.Result FunctionExecutionOutput (ApplicationFailure String))
  run_handler input handler w =
      let (outcome, w') = handler (into_function_input input) w in
      (Async.ok (output_of input.name w w' outcome), w')

  unfoldable pub execute_function :
      Registry (Handler W E)
      → FunctionExecutionInput
      → Fut W (Async.Result FunctionExecutionOutput (ApplicationFailure String))
  unfolding get validate_function
  execute_function registry input w =
      Async.and_then (checked "InvalidFunctionInput" (validate_function host.debug input), w)
        λ _ w1.
          Async.and_then (checked "FunctionNotFound" (get host.debug registry input.name), w1)
            λ handler w2. run_handler input handler w2
