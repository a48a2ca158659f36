-- ===== src/Wf/Function/Activity/Executed.antt =====
-- crates/altair-wf/src/function/activity.rs: what an execution reports, and which handler it runs.
use altair_rs.Prelude.{
  Bool-cases, ℕ, ◌-◌, ◌≤◌, ◌<◌, ◌^◌, ◌≡◌, refl, ◌⊎◌, inl, inr, true, false, [], arith,
  if◌then◌else◌,
}
use altair_rs.Prelude.Text.{String, str_eq}
use altair_rs.Prelude.Async as Async
use altair_rs.Temporal.Activity.{ApplicationFailure}
use altair_rs.Wf.Error.{Error, display, Result-cases, ok, err}
use altair_rs.Wf.Function.{
  FunctionExecutionInput, into_function_input, validate_function, Registry, get, has, register,
}
use altair_rs.Wf.Function.Names.{get-register}
use altair_rs.Wf.Function.Payload.{FunctionExecutionOutput, as_u64}
use altair_rs.Wf.Function.Activity.{
  Caught, returned, panicked, Handler, Host, render_handler_error, render_panic, unix_millis,
  output_of, run_handler, execute_function,
}

as_u64_lem : (n : ℕ) → (as_u64 n < 2 ^ 64) × (as_u64 n ≤ n)
as_u64_lem n = (ground arith, ground arith)

-- A failure of a type, with a text, that the server does not retry.
abbrev pub not_retried : String → String → ApplicationFailure String
not_retried type_name text = record { source = text; type_name = type_name; non_retryable = true }

module _ {W E : Type 0} (host : Host W E) where
  -- The part of an output that the handler decides.
  abbrev pub Answers : Caught E → FunctionExecutionOutput → Type 0
  Answers (returned (Async.ok output)) out =
      (out.success ≡ true)
      × (out.error ≡ "")
      × (out.result ≡ output.result)
      × (out.data_bytes ≡ output.data_bytes)
  Answers (returned (Async.err e)) out =
      (out.success ≡ false)
      × (out.error ≡ render_handler_error host e)
      × (out.result ≡ [])
      × (out.data_bytes ≡ [])
  Answers (panicked payload) out =
      (out.success ≡ false)
      × (out.error ≡ render_panic payload)
      × (out.result ≡ [])
      × (out.data_bytes ≡ [])

  -- The report on a handler that took the outside from `w` to `w'`.
  pub record Reports (name : String) (w w' : W) (caught : Caught E) (out : FunctionExecutionOutput)
      : Type 0 where
    pub named : out.name ≡ name
    pub answers : Answers caught out
    pub took : out.duration ≡ host.instant w' - host.instant w
    pub nanos_fit : out.elapsed_nanos < 2 ^ 64
    pub nanos_small : out.elapsed_nanos ≤ out.duration
    pub started : out.started_at_millis ≡ unix_millis host w
    pub finished : out.finished_at_millis ≡ unix_millis host w'

  Reports-output_of :
      (name : String) (w w' : W) (caught : Caught E)
      → Reports name w w' caught (output_of host name w w' caught)
  Reports-output_of name w w' (returned (Async.ok output)) =
      let (fits, small) = as_u64_lem (host.instant w' - host.instant w) in
      record {
        named = refl;
        answers = (refl, refl, refl, refl);
        took = refl;
        nanos_fit = fits;
        nanos_small = small;
        started = refl;
        finished = refl;
      }
  Reports-output_of name w w' (returned (Async.err e)) =
      let (fits, small) = as_u64_lem (host.instant w' - host.instant w) in
      record {
        named = refl;
        answers = (refl, refl, refl, refl);
        took = refl;
        nanos_fit = fits;
        nanos_small = small;
        started = refl;
        finished = refl;
      }
  Reports-output_of name w w' (panicked payload) =
      let (fits, small) = as_u64_lem (host.instant w' - host.instant w) in
      record {
        named = refl;
        answers = (refl, refl, refl, refl);
        took = refl;
        nanos_fit = fits;
        nanos_small = small;
        started = refl;
        finished = refl;
      }

  -- How an execution ends: without a step, by a failure that is not retried, or with a report.
  abbrev pub Executes :
      Registry (Handler W E)
      → FunctionExecutionInput
      → W
      → Async.Result FunctionExecutionOutput (ApplicationFailure String) × W
      → Type 0
  Executes registry input w answer =
      ((e : Error) × (validate_function host.debug input ≡ err e)
        × (answer ≡ (Async.err (not_retried "InvalidFunctionInput" (display e)), w)))
      ⊎ ((e : Error) × (validate_function host.debug input ≡ ok tt)
          × (get host.debug registry input.name ≡ err e)
          × (answer ≡ (Async.err (not_retried "FunctionNotFound" (display e)), w)))
      ⊎ ((handler : Handler W E) × (out : FunctionExecutionOutput) × (validate_function host.debug
              input
            ≡ ok tt)
          × (get host.debug registry input.name ≡ ok handler)
          × (answer ≡ (Async.ok out, (handler (into_function_input input) w).1))
          × Reports input.name w (handler (into_function_input input) w).1
              (handler (into_function_input input) w).0 out)

  -- An input that is not valid, or whose name has no handler, fails and runs nothing; the failure
  -- has the type and the text of the error and is marked as not retryable.
  -- Otherwise the handler of the name runs once, and the activity succeeds with a report: the
  -- output of the handler, or the text of its error or of its panic. The elapsed nanoseconds fit a
  -- u64 and are at most the duration.
  pub execute_function_lem :
      (registry : Registry (Handler W E)) (input : FunctionExecutionInput) (w : W)
      → Executes registry input w (execute_function host registry input w)
  unfolding execute_function
  execute_function_lem registry input w = elim (Result-cases (validate_function host.debug input)) [
    | inr (e, invalid) ↦ inl (e, invalid, rw invalid refl)
    | inl (_, valid) ↦ elim (Result-cases (get host.debug registry input.name)) [
      | inr (e, missing) ↦ inr (inl (e, valid, missing, rw (valid, missing) refl))
      | inl (handler, found) ↦
          let (caught, w') = handler (into_function_input input) w in
          inr (
            inr (
              handler,
              output_of host input.name w w' caught,
              valid,
              found,
              rw (valid, found) refl,
              Reports-output_of input.name w w' caught,
            ))
    ]
  ]

  -- After a registration that is accepted, a valid input of that name runs the new handler, and an
  -- input of another name is executed as before.
  pub execute_function-register :
      (registry : Registry (Handler W E)) (name : String) (handler : Handler W E)
      (input : FunctionExecutionInput) (w : W)
      → has registry name ≡ false
      → validate_function host.debug input ≡ ok tt
      → execute_function host (register registry name handler).1 input w ≡ (
          if str_eq name input.name
          then run_handler host input handler w
          else execute_function host registry input w)
  unfolding execute_function
  execute_function-register registry name handler input w free valid =
      elim (get-register host.debug registry name input.name handler) [
        | inl (taken, _) ↦ cc
        | inr (_, _, found) ↦ elim (Bool-cases (str_eq name input.name)) [
          | inl same ↦ rw (valid, found, same) refl
          | inr other ↦ rw (valid, found, other) refl
        ]
      ]
