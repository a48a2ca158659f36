-- ===== src/Temporal/Error.antt =====
-- crates/altair-temporal/src/error.rs. `B` is the type of boxed sources and `S` that of texts.
use altair_rs.Prelude.{◌≡◌, refl}
use altair_rs.Prelude.Async.{Result as AsyncResult, ok, err}

pub data Error (B S : Type 0) : Type 0 where
  connect_failed : (host : S) (source : B) → Error B S
  client_failed : B → Error B S
  worker_failed : B → Error B S
  schedule_failed : B → Error B S
  configuration : S → Error B S

abbrev pub Result : Type 0 → Type 0 → Type 0 → Type 0
Result T B S = AsyncResult T (Error B S)

-- The answer is `Error::Configuration`.
abbrev pub IsInvalid : {T B S : Type 0} → Result T B S → Type 0
IsInvalid (err (configuration text)) = Unit {0}
IsInvalid _ = ⊥

pub configuration_of :
    {T B S : Type 0} (answer : Result T B S)
    → IsInvalid answer
    → (text : S) × (answer ≡ err (configuration text))
configuration_of (ok v) h = elim h [ ]
configuration_of (err (connect_failed host source)) h = elim h [ ]
configuration_of (err (client_failed source)) h = elim h [ ]
configuration_of (err (worker_failed source)) h = elim h [ ]
configuration_of (err (schedule_failed source)) h = elim h [ ]
configuration_of (err (configuration text)) h = (text, refl)
