-- ===== src/Temporal/Tests/Ids.antt =====
-- Workflow ids of crates/altair-temporal/src/workflow_id.rs with payloads that are one byte.
use altair_rs.Prelude.{
  ltb→lt, ℕ, ◌<◌, ◌≡◌, refl, ◌≢◌, List, [], ◌∷◌, ltb, if◌then◌else◌, Bool-cases, inl, inr,
}
use altair_rs.Prelude.Text.{String, codes}
use altair_rs.Prelude.Async.{Result as AsyncResult, ok, err}
use altair_rs.Base32.Bytes.{encode, decode}
use altair_rs.Base32.U64.{symbol, char_value}
use altair_rs.Base32.Sample.{pairs}
use altair_rs.Temporal.WorkflowId.{Json, encode_id, decode_id}
use altair_rs.Temporal.WorkflowId.RoundTrip.{Encodes, decode_id-encode_id}

-- A number below 256, as one byte.
abbrev to_byte : ℕ → AsyncResult (List ℕ) (List ℕ)
to_byte n = if ltb n 256 then ok (n ∷ []) else err (codes "too large")

abbrev from_byte : List ℕ → AsyncResult ℕ (List ℕ)
from_byte [] = err (codes "no byte")
from_byte (n ∷ []) = ok n
from_byte (n ∷ m ∷ bytes) = err (codes "trailing")

to_byte-cases : (n : ℕ) (bytes : List ℕ) → to_byte n ≡ ok bytes → (n < 256) × (bytes ≡ n ∷ [])
to_byte-cases n bytes h = elim (Bool-cases (ltb n 256)) [
  | inl below ↦
      let e : ◌≡◌ {A = AsyncResult (List ℕ) (List ℕ)} (ok (n ∷ [])) (ok bytes) = rw below at h in
      (ltb→lt n 256 below, cc)
  | inr above ↦
      let e : ◌≡◌ {A = AsyncResult (List ℕ) (List ℕ)} (err (codes "too large")) (ok bytes) =
        rw above at h in
      cc
]

to_byte_nonempty : (n : ℕ) (bytes : List ℕ) → to_byte n ≡ ok bytes → bytes ≢ []
to_byte_nonempty n bytes h nothing = let (_, e) = to_byte-cases n bytes h in cc (e, nothing)

abbrev bytes_json : Json ℕ
bytes_json = record {
  to_vec = to_byte;
  from_slice = from_byte;
  to_vec-IsBytes = λ n bytes h. let (below, e) = to_byte-cases n bytes h in rw e (below, tt);
  to_vec_nonempty = to_byte_nonempty;
  from_slice-to_vec = λ n bytes h. let (_, e) = to_byte-cases n bytes h in rw e refl;
}

-- The prefix has a hyphen of its own.
nightly_id :
    encode_id {B = String} pairs bytes_json (codes "run-nightly") 42 ≡ ok (codes "run-nightly-2A")
unfolding encode_id encode symbol
nightly_id = refl

-- The payload is read in lower case too.
lower_case :
    decode_id {B = String} pairs bytes_json (λ c. c ∷ []) (codes "run-nightly-2a")
    ≡ ok (codes "run-nightly", 42)
unfolding decode_id decode char_value
lower_case = refl

decode_id-encode_id_example :
    Encodes String pairs bytes_json
      (λ c. c ∷ [])
      (codes "run-nightly")
      42
      (encode_id {B = String} pairs bytes_json (codes "run-nightly") 42)
decode_id-encode_id_example =
    decode_id-encode_id String pairs bytes_json (λ c. c ∷ []) (codes "run-nightly") 42
