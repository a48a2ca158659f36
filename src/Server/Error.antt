-- ===== src/Server/Error.antt =====
-- crates/altair-server/src/error.rs. `X` is the type of I/O errors, a `Duration` its number of
-- nanoseconds.
use altair_rs.Prelude.{ℕ}
use altair_rs.Prelude.Text.{String}
use altair_rs.Prelude.Async.{Result as AsyncResult}

pub data Error (X : Type 0) : Type 0 where
  bind_failed : (addr : String) (source : X) → Error X
  io_failed : X → Error X
  configuration : String → Error X
  shutdown_timeout : ℕ → Error X

abbrev pub Result : Type 0 → Type 0 → Type 0
Result T X = AsyncResult T (Error X)
