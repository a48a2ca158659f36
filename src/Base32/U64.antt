-- ===== src/Base32/U64.antt =====
-- crates/altair-base32/src/u64.rs.
pub mod Digits
pub mod Value
pub mod RoundTrip
pub mod Sorted
use altair_rs.Prelude.{
  ℕ, zero, suc, ◌+◌, ◌-◌, ◌*◌, ◌/◌, ◌%◌, ◌^◌, ◌≡◌, Bool, not, Option, none, some, List, [], ◌∷◌,
  ltb, leb, ◌==◌, if◌then◌else◌, length,
}
use altair_rs.Base32.Error.{Result, ok, err, overflow, and_then, ok_or}
use altair_rs.Base32.Bytes.{between, normalize}

-- The code points of "0123456789ABCDEFGHJKMNPQRSTVWXYZ".
abbrev pub alphabet : List ℕ
alphabet =
    b'0' ∷ b'1' ∷ b'2' ∷ b'3' ∷ b'4' ∷ b'5' ∷ b'6' ∷ b'7' ∷ b'8' ∷ b'9' ∷ b'A' ∷ b'B' ∷ b'C' ∷ b'D'
    ∷ b'E' ∷ b'F' ∷ b'G' ∷ b'H' ∷ b'J' ∷ b'K' ∷ b'M' ∷ b'N' ∷ b'P' ∷ b'Q' ∷ b'R' ∷ b'S' ∷ b'T'
    ∷ b'V' ∷ b'W' ∷ b'X' ∷ b'Y' ∷ b'Z' ∷ []

-- Indexing a constant table. No index of the program is out of range, where Rust panics.
abbrev pub at : List ℕ → ℕ → ℕ
at [] i = 0
at (x ∷ xs) zero = x
at (x ∷ xs) (suc i) = at xs i

unfoldable pub symbol : ℕ → ℕ
symbol d = at alphabet d

abbrev pub u64_encoded_len : ℕ
u64_encoded_len = 13

-- The loop over the slots from the last to the first. `n & 31` and `n >> 5` are the remainder and
-- the quotient by 32.
unfoldable pub encode_slots : ℕ → ℕ → List ℕ → List ℕ
unfolding symbol
encode_slots zero n out = out
encode_slots (suc slots) n out = encode_slots slots (n / 32) (symbol (n % 32) ∷ out)

unfoldable pub encode_u64 : ℕ → List ℕ
unfolding encode_slots
encode_u64 n = encode_slots u64_encoded_len n []

-- The last arm is the one that Rust marks unreachable: no canonical character gets there.
unfoldable pub char_value : ℕ → ℕ
char_value ch =
    if between b'0' b'9' ch
    then ch - b'0'
    else if between b'A' b'H' ch
    then ch - b'A' + 10
    else if ch == b'J'
    then 18
    else if ch == b'K'
    then 19
    else if ch == b'M'
    then 20
    else if ch == b'N'
    then 21
    else if between b'P' b'T' ch
    then ch - b'P' + 22
    else if between b'V' b'Z' ch
    then ch - b'V' + 27
    else 0

abbrev pub u64_limit : ℕ
u64_limit = 18446744073709551616

abbrev pub checked : ℕ → Option ℕ
checked v = if ltb v u64_limit then some v else none

abbrev pub checked_mul : ℕ → ℕ → Option ℕ
checked_mul a b = checked (a * b)

abbrev pub checked_add : ℕ → ℕ → Option ℕ
checked_add a b = checked (a + b)

-- Rust's `Option::and_then`.
abbrev pub bind_option : Option ℕ → (ℕ → Option ℕ) → Option ℕ
bind_option none f = none
bind_option (some v) f = f v

-- `acc.checked_mul(32).and_then(|v| v.checked_add(value))`.
unfoldable pub shift_in : ℕ → ℕ → Option ℕ
shift_in acc value = bind_option (checked_mul acc 32) (λ v. checked_add v value)

-- The loop over the characters; those that are left count `bytes.len() - i`.
unfoldable pub decode_loop : List ℕ → ℕ → Result ℕ
unfolding char_value shift_in
decode_loop [] acc = ok acc
decode_loop (ch ∷ rest) acc =
    and_then
      (if ltb u64_encoded_len (length (ch ∷ rest))
        then (if char_value ch == 0 then ok acc else err overflow)
        else ok_or overflow (shift_in acc (char_value ch)))
      (decode_loop rest)

unfoldable pub decode_u64 : List ℕ → Result ℕ
unfolding normalize decode_loop
decode_u64 text = and_then (normalize text) (λ normalized. decode_loop normalized 0)
