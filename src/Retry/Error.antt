-- ===== src/Retry/Error.antt =====
-- crates/altair-retry/src/error.rs. A boxed error is of a type `B`.
use altair_rs.Prelude.{ℕ}
use altair_rs.Prelude.Text.{String}

pub data Error (B : Type 0) : Type 0 where
  exhausted : (name : String) (attempts : ℕ) (source : B) → Error B
  permanent : (name : String) (source : B) → Error B
  cancelled : (name : String) → Error B

pub record PermanentError (B : Type 0) : Type 0 where
  pub inner : B

-- `PermanentError::wrap`, for the conversion `Into<BoxedError>`.
abbrev pub wrap : {E B : Type 0} → (E → B) → E → PermanentError B
wrap into e = record { inner = into e }
