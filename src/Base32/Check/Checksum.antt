-- ===== src/Base32/Check/Checksum.antt =====
-- crates/altair-base32/src/check.rs: the check digit, and the two functions that use it.
use altair_rs.Prelude.{
  ℕ, ◌+◌, ◌*◌, ◌%◌, ◌<◌, ◌≡◌, refl, ap, Bool, true, false, Option, none, some, List, [], ◌∷◌, ◌++◌,
  arith, ◌==◌, ==_iff,
}
use altair_rs.Base32.Error.{ok}
use altair_rs.Base32.Bytes.{normalize, Codec, decode, IsBytes}
use altair_rs.Base32.Bytes.Normal.{offset, normalize-canonical, IsCanonical-normalize}
use altair_rs.Base32.U64.Digits.{all_below, all_below_lem}
use altair_rs.Base32.Check.{
  check_symbol, checksum_from, checksum, check_char_for, check_value_from_char, encode_with_check,
  split_last, verified, decode_body, decode_with_check,
}

-- The number that bytes denote, the first the highest.
unfoldable pub number_from : ℕ → List ℕ → ℕ
number_from acc [] = acc
number_from acc (b ∷ bytes) = number_from (acc * 256 + b) bytes

abbrev pub number : List ℕ → ℕ
number bytes = number_from 0 bytes

checksum_from_lem :
    (bytes : List ℕ) (acc full : ℕ)
    → acc ≡ full % 37
    → checksum_from acc bytes ≡ number_from full bytes % 37
unfolding checksum_from number_from
checksum_from_lem [] acc full h = h
checksum_from_lem (b ∷ bytes) acc full h =
    checksum_from_lem bytes ((acc * 256 + b) % 37) (full * 256 + b) (omega arith)

-- The checksum is the number that the bytes denote, modulo 37.
pub checksum_lem : (bytes : List ℕ) → checksum bytes ≡ number bytes % 37
unfolding checksum
checksum_lem bytes = checksum_from_lem bytes 0 0 (omega arith)

abbrev is_some_of : Option ℕ → ℕ → Bool
is_some_of none i = false
is_some_of (some j) i = j == i

is_some_of_lem : (o : Option ℕ) (i : ℕ) → is_some_of o i ≡ true → o ≡ some i
is_some_of_lem none i h = cc
is_some_of_lem (some j) i h = ap some ((==_iff j i).0 h)

positions_checked : all_below 37 (λ i. is_some_of (check_value_from_char (check_symbol i)) i) ≡ true
unfolding check_value_from_char check_symbol
positions_checked = refl

check_value_from_char-check_symbol :
    (i : ℕ) → i < 37 → check_value_from_char (check_symbol i) ≡ some i
check_value_from_char-check_symbol i h = is_some_of_lem (check_value_from_char (check_symbol i)) i (
    all_below_lem 37 (λ i. is_some_of (check_value_from_char (check_symbol i)) i) positions_checked
      i h)

split_last-snoc :
    (body : List ℕ) (ch : ℕ) → split_last (body ++ (ch ∷ [])) ≡ some (body, offset body, ch)
unfolding split_last
split_last-snoc [] ch = refl
split_last-snoc (c ∷ body) ch = rw (split_last-snoc body ch)

-- What is needed for an answer.
decode_with_check_complete :
    (codec : Codec) (body normalized bytes : List ℕ)
    → normalize body ≡ ok normalized
    → codec.decode_crate normalized ≡ some bytes
    → decode_with_check codec (body ++ (check_char_for bytes ∷ [])) ≡ ok bytes
unfolding decode_with_check decode_body decode check_char_for verified
decode_with_check_complete codec body normalized bytes h e =
    let small : checksum bytes < 37 = omega (arith, checksum_lem bytes) in
    let again : normalize normalized ≡ ok normalized =
      normalize-canonical normalized (IsCanonical-normalize body normalized h) in
    let same : (checksum bytes == checksum bytes) ≡ true = ground arith in
    rw (
      split_last-snoc body (check_symbol (checksum bytes)),
      check_value_from_char-check_symbol (checksum bytes) small,
      h,
      again,
      e,
      same,
    )

-- With the documented laws of the crate base32, decoding what `encode_with_check` answers gives
-- the bytes back.
pub decode_with_check-encode_with_check :
    (codec : Codec) (bytes : List ℕ)
    → IsBytes bytes
    → decode_with_check codec (encode_with_check codec bytes) ≡ ok bytes
unfolding encode_with_check
decode_with_check-encode_with_check codec bytes h =
    decode_with_check_complete codec (codec.encode_crate bytes) (codec.encode_crate bytes) bytes
      (normalize-canonical (codec.encode_crate bytes) (codec.encode-IsCanonical bytes h))
      (codec.decode-encode bytes h)
