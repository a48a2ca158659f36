-- ===== src/Base32/Bytes.antt =====
-- crates/altair-base32/src/bytes.rs. The crate base32 is the parameter `Codec`.
pub mod Normal
use altair_rs.Prelude.{
  ℕ, ◌+◌, ◌-◌, ◌<◌, ◌≡◌, Bool, true, ◌&&◌, ◌||◌, Option, none, some, List, [], ◌∷◌, ◌++◌, ltb, leb,
  ◌==◌, if◌then◌else◌, All,
}
use altair_rs.Base32.Error.{Error, invalid_char, Result, ok, err, and_then, ok_or}

-- A range pattern `'lo'..='hi'`.
abbrev pub between : ℕ → ℕ → ℕ → Bool
between lo hi ch = leb lo ch && leb ch hi

abbrev pub is_crockford_letter : ℕ → Bool
is_crockford_letter ch =
    between b'A' b'H' ch
    || ch == b'J'
    || ch == b'K'
    || ch == b'M'
    || ch == b'N'
    || between b'P' b'T' ch
    || between b'V' b'Z' ch

abbrev pub to_ascii_uppercase : ℕ → ℕ
to_ascii_uppercase ch = if between b'a' b'z' ch then ch - 32 else ch

-- `char::len_utf8`, by which `char_indices` moves on.
abbrev pub len_utf8 : ℕ → ℕ
len_utf8 ch = if ltb ch 0x80 then 1 else if ltb ch 0x800 then 2 else if ltb ch 0x10000 then 3 else 4

-- The arms of the match: what is pushed, or `none` for the last arm.
unfoldable pub pushed : ℕ → Option (List ℕ)
pushed ch =
    if ch == b'-'
    then some []
    else if ch == b'0' || ch == b'O' || ch == b'o'
    then some (b'0' ∷ [])
    else if ch == b'1' || ch == b'I' || ch == b'i' || ch == b'L' || ch == b'l'
    then some (b'1' ∷ [])
    else if between b'2' b'9' ch
    then some (ch ∷ [])
    else if between b'a' b'z' ch && is_crockford_letter (to_ascii_uppercase ch)
    then some (to_ascii_uppercase ch ∷ [])
    else if between b'A' b'Z' ch && is_crockford_letter ch
    then some (ch ∷ [])
    else none

-- The loop of `normalize`, from the byte offset `position` on.
unfoldable pub normalize_from : ℕ → List ℕ → Result (List ℕ)
unfolding pushed
normalize_from position [] = ok []
normalize_from position (ch ∷ text) =
    and_then (ok_or (invalid_char ch position) (pushed ch))
      λ piece. and_then (normalize_from (position + len_utf8 ch) text) λ out. ok (piece ++ out)

unfoldable pub normalize : List ℕ → Result (List ℕ)
unfolding normalize_from
normalize text = normalize_from 0 text

-- A character of the canonical alphabet.
abbrev pub is_canonical : ℕ → Bool
is_canonical ch = between b'0' b'9' ch || is_crockford_letter ch

abbrev pub IsCanonical : List ℕ → Type 0
IsCanonical text = All (λ ch. is_canonical ch ≡ true) text

abbrev pub IsBytes : List ℕ → Type 0
IsBytes bytes = All (λ b. b < 256) bytes

-- The crate base32 with `Alphabet::Crockford`.
pub record Codec : Type 0 where
  pub encode_crate : List ℕ → List ℕ
  pub decode_crate : List ℕ → Option (List ℕ)
  -- Documented: the output is in the alphabet, and decoding gives the data back. No bytes are
  -- encoded as the empty text.
  pub encode-IsCanonical : (bytes : List ℕ) → IsBytes bytes → IsCanonical (encode_crate bytes)
  pub decode-encode :
      (bytes : List ℕ) → IsBytes bytes → decode_crate (encode_crate bytes) ≡ some bytes
  pub encode_nothing : encode_crate [] ≡ []

unfoldable pub encode : Codec → List ℕ → List ℕ
encode codec bytes = codec.encode_crate bytes

unfoldable pub decode : Codec → List ℕ → Result (List ℕ)
unfolding normalize
decode codec text =
    and_then (normalize text)
      λ normalized. ok_or (invalid_char b'?' 0) (codec.decode_crate normalized)
