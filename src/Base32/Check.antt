-- ===== src/Base32/Check.antt =====
-- crates/altair-base32/src/check.rs.
pub mod Checksum
pub mod Corrupted
use altair_rs.Prelude.{
  ℕ, zero, suc, ◌+◌, ◌*◌, ◌%◌, ◌<◌, Bool, Option, none, some, List, [], ◌∷◌, ◌++◌, ltb, ◌==◌,
  if◌then◌else◌,
}
use altair_rs.Base32.Error.{invalid_char, check_mismatch, empty, Result, ok, err, and_then, ok_or}
use altair_rs.Base32.Bytes.{len_utf8, normalize, Codec, encode, decode}
use altair_rs.Base32.U64.{alphabet, at}

-- The code points of "0123456789ABCDEFGHJKMNPQRSTVWXYZ*~$=U".
abbrev pub check_alphabet : List ℕ
check_alphabet = alphabet ++ (b'*' ∷ b'~' ∷ b'$' ∷ b'=' ∷ b'U' ∷ [])

unfoldable pub check_symbol : ℕ → ℕ
check_symbol i = at check_alphabet i

-- Horner's method. Below 37 * 256 + 256 the `u32` does not wrap.
unfoldable pub checksum_from : ℕ → List ℕ → ℕ
checksum_from acc [] = acc
checksum_from acc (b ∷ bytes) = checksum_from ((acc * 256 + b) % 37) bytes

unfoldable pub checksum : List ℕ → ℕ
unfolding checksum_from
checksum bytes = checksum_from 0 bytes

unfoldable pub check_char_for : List ℕ → ℕ
unfolding check_symbol checksum
check_char_for bytes = check_symbol (checksum bytes)

-- `iter().position(...)`, counted from `i`.
abbrev pub position_from : ℕ → List ℕ → ℕ → Option ℕ
position_from i [] ch = none
position_from i (c ∷ cs) ch =
    let rest = position_from (suc i) cs ch in if c == ch then some i else rest

-- `u8::try_from` always succeeds on the 37 positions.
unfoldable pub check_value_from_char : ℕ → Option ℕ
check_value_from_char ch = position_from 0 check_alphabet ch

unfoldable pub encode_with_check : Codec → List ℕ → List ℕ
unfolding encode check_char_for
encode_with_check codec bytes = encode codec bytes ++ (check_char_for bytes ∷ [])

-- `char_indices().next_back()`: the text before the last character, its byte offset, and the
-- character.
unfoldable pub split_last : List ℕ → Option (List ℕ × ℕ × ℕ)
split_last [] = none
split_last (ch ∷ text) = prepend ch (split_last text)
  where
    prepend : ℕ → Option (List ℕ × ℕ × ℕ) → Option (List ℕ × ℕ × ℕ)
    prepend ch none = some ([], 0, ch)
    prepend ch (some (body, position, found)) = some (ch ∷ body, len_utf8 ch + position, found)

unfoldable pub verified : ℕ → ℕ → List ℕ → Result (List ℕ)
unfolding check_symbol checksum
verified expected_value found bytes =
    if checksum bytes == expected_value
    then ok bytes
    else err (check_mismatch (check_symbol (checksum bytes)) found)

unfoldable pub decode_body : Codec → List ℕ × ℕ × ℕ → Result (List ℕ)
unfolding check_value_from_char normalize decode verified
decode_body codec (body, last_pos, found) =
    and_then (ok_or (invalid_char found last_pos) (check_value_from_char found)) λ expected_value.
      and_then (normalize body)
        λ body_normalized. and_then (decode codec body_normalized) (verified expected_value found)

unfoldable pub decode_with_check : Codec → List ℕ → Result (List ℕ)
unfolding split_last decode_body
decode_with_check codec text = and_then (ok_or empty (split_last text)) (decode_body codec)
