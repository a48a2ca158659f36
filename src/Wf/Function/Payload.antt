-- ===== src/Wf/Function/Payload.antt =====
-- crates/altair-wf/src/function/payload.rs: the setters of an execution input, and the output of an
-- execution. A `Duration` is its number of nanoseconds.
use altair_rs.Prelude.{
  ℕ, ◌*◌, ◌-◌, ◌/◌, ◌^◌, Bool, true, false, Option, none, some, List, [], ◌∷◌, leb, if◌then◌else◌,
}
use altair_rs.Prelude.Text.{String, is_empty_text}
use altair_rs.Prelude.StringMap.{insert}
use altair_rs.Wf.Params.{StringMap}
use altair_rs.Wf.Task.{TaskOutput}
use altair_rs.Wf.Function.{FunctionOutput, FunctionExecutionInput}

-- `collect` of pairs into a `HashMap`: a later pair replaces an earlier one of its key.
unfoldable pub collect_from : StringMap → List (String × String) → StringMap
collect_from m [] = m
collect_from m ((k, v) ∷ pairs) = collect_from (insert k v m) pairs

abbrev pub with_result : List (String × String) → FunctionOutput
with_result result = record { result = collect_from [] result; data_bytes = [] }

abbrev pub new_input : String → FunctionExecutionInput
new_input name = record {
  name = name;
  args = [];
  data_bytes = [];
  env = [];
  work_dir = "";
  timeout = 0;
  labels = [];
}

abbrev pub with_args : List (String × String) → FunctionExecutionInput → FunctionExecutionInput
with_args args self = record self { args = collect_from [] args }

abbrev pub with_data : List ℕ → FunctionExecutionInput → FunctionExecutionInput
with_data data_bytes self = record self { data_bytes = data_bytes }

abbrev pub with_env : List (String × String) → FunctionExecutionInput → FunctionExecutionInput
with_env env self = record self { env = collect_from [] env }

abbrev pub with_work_dir : String → FunctionExecutionInput → FunctionExecutionInput
with_work_dir work_dir self = record self { work_dir = work_dir }

abbrev pub with_input_timeout : ℕ → FunctionExecutionInput → FunctionExecutionInput
with_input_timeout timeout self = record self { timeout = timeout }

abbrev pub with_labels : List (String × String) → FunctionExecutionInput → FunctionExecutionInput
with_labels labels self = record self { labels = collect_from [] labels }

pub record FunctionExecutionOutput : Type 0 where
  pub name : String
  pub success : Bool
  pub error : String
  pub result : StringMap
  pub data_bytes : List ℕ
  pub duration : ℕ
  pub elapsed_nanos : ℕ
  pub started_at_millis : ℕ
  pub finished_at_millis : ℕ

abbrev pub success : String → FunctionOutput → FunctionExecutionOutput
success name output = record {
  name = name;
  success = true;
  error = "";
  result = output.result;
  data_bytes = output.data_bytes;
  duration = 0;
  elapsed_nanos = 0;
  started_at_millis = 0;
  finished_at_millis = 0;
}

abbrev pub failure : String → String → FunctionExecutionOutput
failure name error = record {
  name = name;
  success = false;
  error = error;
  result = [];
  data_bytes = [];
  duration = 0;
  elapsed_nanos = 0;
  started_at_millis = 0;
  finished_at_millis = 0;
}

abbrev pub error_text : String → Option String
error_text error = if is_empty_text error then none else some error

-- `impl TaskOutput for FunctionExecutionOutput`.
abbrev pub execution_output : TaskOutput FunctionExecutionOutput
execution_output = record {
  is_success = λ self. self.success;
  error = λ self. error_text self.error;
}

-- `try_into().unwrap_or(u64::MAX)`.
abbrev pub as_u64 : ℕ → ℕ
as_u64 n = if leb n (2 ^ 64 - 1) then n else 2 ^ 64 - 1

-- `duration_millis_compat`: what is serialised, and what is read back.
abbrev pub to_millis : ℕ → ℕ
to_millis d = as_u64 (d / 1000000)

abbrev pub of_millis : ℕ → ℕ
of_millis n = n * 1000000
