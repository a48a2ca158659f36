-- ===== src/Base32/Sample.antt =====
-- A codec with the laws that crates/altair-base32/src asks of the crate base32: each byte as two
-- characters.
use altair_rs.Prelude.{ℕ, ◌+◌, ◌*◌, ◌/◌, ◌%◌, ◌≡◌, refl, Option, none, some, List, [], ◌∷◌, arith}
use altair_rs.Base32.Bytes.{Codec, IsCanonical, IsBytes}
use altair_rs.Base32.U64.{symbol, char_value}
use altair_rs.Base32.U64.Digits.{symbol-is_canonical, char_value-symbol}

-- A codec with the two laws: each byte as two symbols.
abbrev pub encode_pairs : List ℕ → List ℕ
encode_pairs [] = []
encode_pairs (b ∷ bytes) = symbol (b / 16) ∷ symbol (b % 16) ∷ encode_pairs bytes

abbrev pub prepend : ℕ → Option (List ℕ) → Option (List ℕ)
prepend b none = none
prepend b (some bytes) = some (b ∷ bytes)

abbrev pub decode_pairs : List ℕ → Option (List ℕ)
decode_pairs [] = some []
decode_pairs (c ∷ []) = none
decode_pairs (c ∷ d ∷ text) = prepend (char_value c * 16 + char_value d) (decode_pairs text)

pub IsCanonical-encode_pairs : (bytes : List ℕ) → IsBytes bytes → IsCanonical (encode_pairs bytes)
IsCanonical-encode_pairs [] h = tt
IsCanonical-encode_pairs (b ∷ bytes) (h, hs) = (
  symbol-is_canonical (b / 16) (omega arith),
  (symbol-is_canonical (b % 16) (omega arith), IsCanonical-encode_pairs bytes hs),
)

pub decode_pairs-encode_pairs :
    (bytes : List ℕ) → IsBytes bytes → decode_pairs (encode_pairs bytes) ≡ some bytes
decode_pairs-encode_pairs [] h = refl
decode_pairs-encode_pairs (b ∷ bytes) (h, hs) =
    let whole : char_value (symbol (b / 16)) * 16 + char_value (symbol (b % 16)) ≡ b =
      omega (
        arith,
        char_value-symbol (b / 16) (omega arith),
        char_value-symbol (b % 16) (omega arith),
      ) in
    rw (decode_pairs-encode_pairs bytes hs, whole)

abbrev pub pairs : Codec
pairs = record {
  encode_crate = encode_pairs;
  encode_nothing = refl;
  decode_crate = decode_pairs;
  encode-IsCanonical = IsCanonical-encode_pairs;
  decode-encode = decode_pairs-encode_pairs;
}
