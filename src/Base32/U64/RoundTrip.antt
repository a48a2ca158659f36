-- ===== src/Base32/U64/RoundTrip.antt =====
-- crates/altair-base32/src/u64.rs: `encode_u64` and `decode_u64` together.
use altair_rs.Prelude.{
  ℕ, zero, suc, ◌+◌, ◌*◌, ◌/◌, ◌%◌, ◌<◌, ◌≡◌, ◌∙◌, ap, List, [], ◌∷◌, arith, length,
}
use altair_rs.Base32.Error.{ok, and_then}
use altair_rs.Base32.Bytes.{IsCanonical}
use altair_rs.Base32.Bytes.Normal.{normalize-canonical}
use altair_rs.Base32.U64.{symbol, encode_slots, encode_u64, decode_u64, u64_limit}
use altair_rs.Base32.U64.Digits.{capacity, symbol-is_canonical, char_value-symbol}
use altair_rs.Base32.U64.Value.{value, numeral, bounded, bounded_fits, decode_u64_exact}

value-encode_slots :
    (slots n : ℕ) (out : List ℕ)
    → n < capacity slots
    → value (encode_slots slots n out) 0 ≡ value out n
unfolding encode_slots value
value-encode_slots zero n out h = let e : n ≡ 0 = omega arith in rw e
value-encode_slots (suc slots) n out h =
    value-encode_slots slots (n / 32) (symbol (n % 32) ∷ out) (omega arith)
    ∙ ap (λ m. value out m)
        (ap (λ d. n / 32 * 32 + d) (char_value-symbol (n % 32) (omega arith)) ∙ omega arith)

IsCanonical-encode_slots :
    (slots n : ℕ) (out : List ℕ) → IsCanonical out → IsCanonical (encode_slots slots n out)
unfolding encode_slots
IsCanonical-encode_slots zero n out h = h
IsCanonical-encode_slots (suc slots) n out h =
    IsCanonical-encode_slots slots (n / 32) (symbol (n % 32) ∷ out)
      (symbol-is_canonical (n % 32) (omega arith), h)

length-encode_slots :
    (slots n : ℕ) (out : List ℕ) → length (encode_slots slots n out) ≡ slots + length out
unfolding encode_slots
length-encode_slots zero n out = omega arith
length-encode_slots (suc slots) n out =
    omega (arith, length-encode_slots slots (n / 32) (symbol (n % 32) ∷ out))

-- Every `u64` is encoded in 13 characters of the canonical alphabet, and decoding them gives it
-- back.
pub decode_u64-encode_u64 :
    (n : ℕ)
    → n < u64_limit
    → (decode_u64 (encode_u64 n) ≡ ok n) × (length (encode_u64 n) ≡ 13) × IsCanonical (encode_u64 n)
unfolding encode_u64 value
decode_u64-encode_u64 n h =
    let canonical : IsCanonical (encode_u64 n) = IsCanonical-encode_slots 13 n [] tt in
    let denoted : numeral (encode_u64 n) ≡ n = value-encode_slots 13 n [] (omega arith) in
    (
      decode_u64_exact (encode_u64 n)
          ∙ ap (λ r. and_then r (λ t. bounded (numeral t)))
              (normalize-canonical (encode_u64 n) canonical)
          ∙ ap bounded denoted
          ∙ bounded_fits n h,
      length-encode_slots 13 n [],
      canonical,
    )
