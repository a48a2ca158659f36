-- ===== src/Temporal/WorkflowId.antt =====
-- crates/altair-temporal/src/workflow_id.rs. A text is the list of its code points, as in Base32.
pub mod RoundTrip
use altair_rs.Prelude.{
  ℕ, ◌+◌, ◌≡◌, ◌≢◌, Option, none, some, List, [], ◌∷◌, ◌++◌, is_empty, ltb, ◌==◌, if◌then◌else◌,
}
use altair_rs.Prelude.Text.{codes, to_string}
use altair_rs.Prelude.Async.{Result as AsyncResult, ok, err, map_error, ◌>>=◌}
use altair_rs.Base32.Error.{
  Error as Base32Error, Result as Base32Result, invalid_char, check_mismatch, overflow, empty,
  ok as base32_ok, err as base32_err,
}
use altair_rs.Base32.Bytes.{Codec, encode, decode, len_utf8, IsBytes}
use altair_rs.Temporal.Error.{Result, configuration}

-- The crate serde_json at a type of payloads. An error is its text.
pub record Json (T : Type 0) : Type 0 where
  pub to_vec : T → AsyncResult (List ℕ) (List ℕ)
  pub from_slice : List ℕ → AsyncResult T (List ℕ)
  -- Documented: the output is a text of JSON, so at least one byte, and what a type with matching
  -- implementations of Serialize and Deserialize writes is read back.
  pub to_vec-IsBytes : (v : T) (bytes : List ℕ) → to_vec v ≡ ok bytes → IsBytes bytes
  pub to_vec_nonempty : (v : T) (bytes : List ℕ) → to_vec v ≡ ok bytes → bytes ≢ []
  pub from_slice-to_vec : (v : T) (bytes : List ℕ) → to_vec v ≡ ok bytes → from_slice bytes ≡ ok v

abbrev pub max_workflow_id_len : ℕ
max_workflow_id_len = 200

-- `str::len`.
abbrev pub text_len : List ℕ → ℕ
text_len [] = 0
text_len (ch ∷ text) = len_utf8 ch + text_len text

-- `format!("{prefix}-{encoded}")`.
abbrev pub id_of : List ℕ → List ℕ → List ℕ
id_of prefix encoded = prefix ++ (b'-' ∷ encoded)

-- `str::rsplit_once`: the parts before and after the last separator.
abbrev pub before_rest : ℕ → ℕ → List ℕ → Option (List ℕ × List ℕ) → Option (List ℕ × List ℕ)
before_rest separator ch text (some (before, after)) = some (ch ∷ before, after)
before_rest separator ch text none = if ch == separator then some ([], text) else none

unfoldable pub rsplit_once : ℕ → List ℕ → Option (List ℕ × List ℕ)
rsplit_once separator [] = none
rsplit_once separator (ch ∷ text) = before_rest separator ch text (rsplit_once separator text)

-- `Display` of the errors of altair-base32, with `debug` for the `Debug` form of a character.
abbrev pub display_error : (ℕ → List ℕ) → Base32Error → List ℕ
display_error debug (invalid_char ch position) =
    codes "invalid Crockford character "
    ++ (debug ch ++ (codes " at position " ++ codes (to_string position)))
display_error debug (check_mismatch expected found) =
    codes "check digit mismatch: expected '"
    ++ (expected ∷ codes "', found '" ++ (found ∷ codes "'"))
display_error debug overflow = codes "decoded value overflows u64"
display_error debug empty = codes "input is empty"

-- `altair_base32::decode(encoded).map_err(…)`.
abbrev pub decoded : {A B : Type 0} → (ℕ → List ℕ) → Base32Result A → Result A B (List ℕ)
decoded debug (base32_ok value) = ok value
decoded debug (base32_err e) =
    err (configuration (codes "workflow id base32 decode failed: " ++ display_error debug e))

-- `.ok_or_else(…)` on the two parts.
abbrev pub separated :
    {B : Type 0} → List ℕ → Option (List ℕ × List ℕ) → Result (List ℕ × List ℕ) B (List ℕ)
separated id none = err (configuration (codes "workflow id missing '-' separator: " ++ id))
separated id (some parts) = ok parts

module _ {B T : Type 0} (codec : Codec) (json : Json T) where
  -- The check of the length.
  abbrev pub within_limit : List ℕ → Result (List ℕ) B (List ℕ)
  within_limit id =
      if ltb max_workflow_id_len (text_len id)
      then err (
          configuration (
            codes "workflow id is "
            ++ (codes (to_string (text_len id)) ++ codes " bytes, max 200")))
      else ok id

  unfoldable pub encode_id : List ℕ → T → Result (List ℕ) B (List ℕ)
  encode_id prefix payload = do
    bytes ←
        map_error (λ e. configuration (codes "payload serialise failed: " ++ e))
          (json.to_vec payload)
    within_limit (id_of prefix (encode codec bytes))

  -- The part after the last hyphen is not empty.
  abbrev pub nonempty : List ℕ → List ℕ → Result (List ℕ) B (List ℕ)
  nonempty id encoded =
      if is_empty encoded
      then err (configuration (codes "workflow id has empty encoded segment: " ++ id))
      else ok encoded

  unfoldable pub decode_id : (ℕ → List ℕ) → List ℕ → Result (List ℕ × T) B (List ℕ)
  unfolding rsplit_once
  decode_id debug id = do
    parts ← separated id (rsplit_once b'-' id)
    encoded ← nonempty id parts.1
    bytes ← decoded debug (decode codec encoded)
    payload ←
        map_error (λ e. configuration (codes "workflow id payload deserialise failed: " ++ e))
          (json.from_slice bytes)
    ok (parts.0, payload)
