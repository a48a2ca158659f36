-- ===== src/Base32/Tests.antt =====
-- Runs of the functions of crates/altair-base32/src, and the theorems at concrete inputs.
use altair_rs.Prelude.{ℕ, ◌≡◌, refl, List, [], ◌∷◌, arith, length}
use altair_rs.Base32.Error.{invalid_char, overflow, ok, err, and_then}
use altair_rs.Base32.Bytes.{IsCanonical, normalize}
use altair_rs.Base32.Bytes.Normal.{Normalizes, normalize_exact}
use altair_rs.Base32.U64.{encode_u64, decode_u64}
use altair_rs.Base32.U64.Value.{bounded, numeral, decode_u64_exact}
use altair_rs.Base32.U64.RoundTrip.{decode_u64-encode_u64}
use altair_rs.Base32.Check.{encode_with_check, decode_with_check}
use altair_rs.Base32.Sample.{pairs}
use altair_rs.Base32.Check.Checksum.{decode_with_check-encode_with_check}

-- "C-Q?", refused at byte 3.
abbrev question : List ℕ
question = b'C' ∷ b'-' ∷ b'Q' ∷ b'?' ∷ []

refused_at_3 : normalize question ≡ err (invalid_char b'?' 3)
unfolding normalize
refused_at_3 = refl

-- "il-o" is "110".
ambiguous : normalize (b'i' ∷ b'l' ∷ b'-' ∷ b'o' ∷ []) ≡ ok (b'1' ∷ b'1' ∷ b'0' ∷ [])
unfolding normalize
ambiguous = refl

-- Fourteen characters: zeros before the thirteen are let through, a digit there is not.
abbrev zeros : List ℕ
zeros =
    b'0' ∷ b'0' ∷ b'0' ∷ b'0' ∷ b'0' ∷ b'0' ∷ b'0' ∷ b'0' ∷ b'0' ∷ b'0' ∷ b'0' ∷ b'0' ∷ b'5' ∷ []

prefixed : decode_u64 (b'0' ∷ zeros) ≡ ok 5
unfolding decode_u64
prefixed = refl

too_long : decode_u64 (b'1' ∷ zeros) ≡ err overflow
unfolding decode_u64
too_long = refl

normalize_exact_example : Normalizes question (normalize question)
normalize_exact_example = normalize_exact question

decode_u64_exact_example :
    decode_u64 (b'1' ∷ zeros)
    ≡ and_then (normalize (b'1' ∷ zeros)) (λ normalized. bounded (numeral normalized))
decode_u64_exact_example = decode_u64_exact (b'1' ∷ zeros)

decode_u64-encode_u64_example :
    (decode_u64 (encode_u64 18446744073709551615) ≡ ok 18446744073709551615)
    × (length (encode_u64 18446744073709551615) ≡ 13)
    × IsCanonical (encode_u64 18446744073709551615)
decode_u64-encode_u64_example = decode_u64-encode_u64 18446744073709551615 (omega arith)

decode_with_check-encode_with_check_example :
    decode_with_check pairs (encode_with_check pairs (104 ∷ 105 ∷ [])) ≡ ok (104 ∷ 105 ∷ [])
decode_with_check-encode_with_check_example =
    decode_with_check-encode_with_check pairs (104 ∷ 105 ∷ []) (omega arith, (omega arith, tt))
