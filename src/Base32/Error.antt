-- ===== src/Base32/Error.antt =====
-- crates/altair-base32/src/error.rs. Characters are code points.
use altair_rs.Prelude.{ℕ, Option, none, some}

pub data Error : Type 0 where
  invalid_char : (ch position : ℕ) → Error
  check_mismatch : (expected found : ℕ) → Error
  overflow empty : Error

pub data Result (A : Type 0) : Type 0 where
  ok : A → Result A
  err : Error → Result A

-- The operator `?`.
abbrev pub and_then : {A B : Type 0} → Result A → (A → Result B) → Result B
and_then (err e) next = err e
and_then (ok value) next = next value

-- Rust's `Option::ok_or`.
abbrev pub ok_or : {A : Type 0} → Error → Option A → Result A
ok_or e none = err e
ok_or e (some a) = ok a
