-- ===== src/Wf/Task.antt =====
-- crates/altair-wf/src/traits.rs: what the patterns ask of a task's input and of its output.
use altair_rs.Prelude.{Bool, Option, none}
use altair_rs.Prelude.Text.{String}
use altair_rs.Wf.Error.{Result, ok}

pub record TaskInput (I : Type 0) : Type 0 where
  pub validate : I → Result (Unit {0})

-- The trait's default `validate`.
abbrev pub always_valid : {I : Type 0} → TaskInput I
always_valid = record { validate = λ _. ok tt }

pub record TaskOutput (O : Type 0) : Type 0 where
  pub is_success : O → Bool
  pub error : O → Option String

-- The trait's default `error`.
abbrev pub no_error : {O : Type 0} → O → Option String
no_error _ = none
