-- ===== src/Temporal/WorkflowId/RoundTrip.antt =====
-- crates/altair-temporal/src/workflow_id.rs: ids that `encode` makes, read by `decode`.
use altair_rs.Prelude.{
  ℕ, ◌≤◌, ◌<◌, ◌≡◌, refl, sym, ap, ◌≢◌, ◌⊎◌, inl, inr, false, Option, none, some, List, [], ◌∷◌,
  arith, ltb, Bool-cases, ◌==◌, is_empty,
}
use mathlib.Core.Path.{◌∙◌}
use altair_rs.Prelude.Async.{ok, err, Result-cases}
use altair_rs.Base32.Error.{ok as base32_ok}
use altair_rs.Base32.Bytes.{Codec, encode, decode, IsBytes, IsCanonical}
use altair_rs.Base32.Bytes.Normal.{normalize-canonical}
use altair_rs.Temporal.Error.{Result, IsInvalid}
use altair_rs.Temporal.WorkflowId.{
  Json, max_workflow_id_len, text_len, id_of, rsplit_once, encode_id, decode_id,
}

-- A canonical text has no hyphen.
rsplit_once-canonical : (text : List ℕ) → IsCanonical text → rsplit_once b'-' text ≡ none
unfolding rsplit_once
rsplit_once-canonical [] h = refl
rsplit_once-canonical (ch ∷ text) (h, hs) =
    let other : (ch == b'-') ≡ false = ground arith in rw (rsplit_once-canonical text hs, other)

-- Whatever stands before it, the last hyphen is the one before a canonical text.
pub rsplit_once-id_of :
    (prefix text : List ℕ)
    → IsCanonical text
    → rsplit_once b'-' (id_of prefix text) ≡ some (prefix, text)
unfolding rsplit_once
rsplit_once-id_of [] text h = rw (rsplit_once-canonical text h)
rsplit_once-id_of (ch ∷ prefix) text h = rw (rsplit_once-id_of prefix text h)

-- The crate base32 gives the bytes back through `normalize`.
pub decode-encode_bytes :
    (codec : Codec) (bytes : List ℕ)
    → IsBytes bytes
    → decode codec (encode codec bytes) ≡ base32_ok bytes
unfolding decode encode
decode-encode_bytes codec bytes h = rw (
  normalize-canonical (codec.encode_crate bytes) (codec.encode-IsCanonical bytes h),
  codec.decode-encode bytes h,
)

some_inj : {A : Type 0} (a b : A) → ◌≡◌ {A = Option A} (some a) (some b) → a ≡ b
some_inj a b h = cc

is_empty-encode :
    (codec : Codec) (bytes : List ℕ)
    → IsBytes bytes
    → bytes ≢ []
    → is_empty (encode codec bytes) ≡ false
unfolding encode
is_empty-encode codec bytes h some_byte = nothing_only (codec.encode_crate bytes) refl
  where
    nothing_only : (text : List ℕ) → codec.encode_crate bytes ≡ text → is_empty text ≡ false
    nothing_only (ch ∷ text) e = refl
    nothing_only [] e = absurd (
        some_byte (
          some_inj bytes [] (
            sym (codec.decode-encode bytes h)
            ∙ (ap codec.decode_crate (e ∙ sym codec.encode_nothing) ∙ codec.decode-encode [] tt))))

module _ {T : Type 0} (B : Type 0) (codec : Codec) (json : Json T) (debug : ℕ → List ℕ) where
  decode_id-id_of :
      (prefix : List ℕ) (payload : T) (bytes : List ℕ)
      → json.to_vec payload ≡ ok bytes
      → decode_id {B = B} codec json debug (id_of prefix (encode codec bytes))
        ≡ ok (prefix, payload)
  unfolding decode_id
  decode_id-id_of prefix payload bytes e =
      let h = json.to_vec-IsBytes payload bytes e in
      let canonical : IsCanonical (encode codec bytes) =
        unfold encode in codec.encode-IsCanonical bytes h in
      rw (
        rsplit_once-id_of prefix (encode codec bytes) canonical,
        is_empty-encode codec bytes h (json.to_vec_nonempty payload bytes e),
        decode-encode_bytes codec bytes h,
        json.from_slice-to_vec payload bytes e,
      )

  -- What `encode` answers, by the serialised payload and the length of the id.
  abbrev pub Encodes : List ℕ → T → Result (List ℕ) B (List ℕ) → Type 0
  Encodes prefix payload answer =
      ((id : List ℕ) × (answer ≡ ok id)
        × (text_len id ≤ max_workflow_id_len)
        × (decode_id {B = B} codec json debug id ≡ ok (prefix, payload)))
      ⊎ ((bytes : List ℕ) × (json.to_vec payload ≡ ok bytes)
          × (max_workflow_id_len < text_len (id_of prefix (encode codec bytes)))
          × IsInvalid answer)
      ⊎ ((e : List ℕ) × (json.to_vec payload ≡ err e) × IsInvalid answer)

  -- `encode` answers an id of at most 200 bytes, from which `decode` reads the prefix, hyphens
  -- included, and the payload; or it answers a configuration error, and then the payload could not
  -- be serialised, or the id would be longer than 200 bytes.
  pub decode_id-encode_id :
      (prefix : List ℕ) (payload : T)
      → Encodes prefix payload (encode_id {B = B} codec json prefix payload)
  unfolding encode_id
  decode_id-encode_id prefix payload = elim (Result-cases (json.to_vec payload)) [
    | inr (e, failed) ↦ inr (inr (e, failed, rw failed tt))
    | inl (bytes, e) ↦
        elim (Bool-cases (ltb max_workflow_id_len (text_len (id_of prefix (encode codec bytes))))) [
          | inl over ↦ inr (inl (bytes, e, ground arith, rw (e, over) tt))
          | inr fits ↦ inl (
            id_of prefix (encode codec bytes),
            rw (e, fits) refl,
            ground arith,
            decode_id-id_of prefix payload bytes e,
          )
        ]
  ]
