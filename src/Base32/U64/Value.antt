-- ===== src/Base32/U64/Value.antt =====
-- crates/altair-base32/src/u64.rs: the number that a text denotes, without any bound, and
-- `decode_u64` against it.
use altair_rs.Prelude.{
  ℕ, zero, suc, ◌+◌, ◌*◌, ◌≤◌, ◌<◌, ◌≡◌, refl, ap, inl, inr, true, false, none, some, List, [], ◌∷◌,
  arith, ltb, ◌==◌, if◌then◌else◌, length, Bool-cases, ==_iff, ltb→lt, sym,
}
use altair_rs.Base32.Error.{Result, ok, err, overflow, and_then}
use altair_rs.Base32.Bytes.{normalize}
use altair_rs.Base32.U64.{char_value, shift_in, decode_loop, decode_u64, u64_limit, u64_encoded_len}

-- The number in base 32 after the digits read so far.
unfoldable pub value : List ℕ → ℕ → ℕ
value [] acc = acc
value (ch ∷ rest) acc = value rest (acc * 32 + char_value ch)

abbrev pub numeral : List ℕ → ℕ
numeral text = value text 0

-- `acc` times 32 to the power `k`.
abbrev scaled : ℕ → ℕ → ℕ
scaled zero acc = acc
scaled (suc k) acc = scaled k (acc * 32)

scaled_mono : (k a b : ℕ) → a ≤ b → scaled k a ≤ scaled k b
scaled_mono zero a b h = h
scaled_mono (suc k) a b h = scaled_mono k (a * 32) (b * 32) (omega arith)

scaled-le-value :
    (k : ℕ) (text : List ℕ) (acc : ℕ) → k ≤ length text → scaled k acc ≤ value text acc
unfolding value
scaled-le-value zero [] acc h = omega arith
scaled-le-value (suc k) [] acc h = omega arith
scaled-le-value zero (ch ∷ rest) acc h =
    omega (arith, scaled-le-value zero rest (acc * 32 + char_value ch) (omega arith))
scaled-le-value (suc k) (ch ∷ rest) acc h = omega (
  arith,
  scaled_mono k (acc * 32) (acc * 32 + char_value ch) (omega arith),
  scaled-le-value k rest (acc * 32 + char_value ch) (omega arith),
)

-- The answer for a number without a bound.
abbrev pub bounded : ℕ → Result ℕ
bounded n = if ltb n u64_limit then ok n else err overflow

pub bounded_fits : (n : ℕ) → n < u64_limit → bounded n ≡ ok n
bounded_fits n h = ground arith

overflows : (n : ℕ) → u64_limit ≤ n → bounded n ≡ err overflow
overflows n h = ground arith

shift_in_fits :
    (acc v : ℕ) → ltb (acc * 32 + v) u64_limit ≡ true → shift_in acc v ≡ some (acc * 32 + v)
unfolding shift_in
shift_in_fits acc v h = ground arith

shift_in_overflows : (acc v : ℕ) → ltb (acc * 32 + v) u64_limit ≡ false → shift_in acc v ≡ none
unfolding shift_in
shift_in_overflows acc v h = ground arith

decode_loop_lem :
    (text : List ℕ) (acc : ℕ)
    → acc < u64_limit
    → (u64_encoded_len < length text → acc ≡ 0)
    → decode_loop text acc ≡ bounded (value text acc)
unfolding decode_loop value
decode_loop_lem [] acc h prefix = ground arith
decode_loop_lem (ch ∷ rest) acc h prefix =
    elim (Bool-cases (ltb u64_encoded_len (length (ch ∷ rest)))) [
      | inl long ↦
          let start : acc ≡ 0 = prefix (ltb→lt u64_encoded_len (length (ch ∷ rest)) long) in
          elim (Bool-cases (char_value ch == 0)) [
            | inl nothing ↦
                let v : char_value ch ≡ 0 = (==_iff (char_value ch) 0).0 nothing in
                let same : acc * 32 + char_value ch ≡ acc = omega (arith, start, v) in
                rw (long, nothing, same) (decode_loop_lem rest acc h (λ _. start))
            | inr digit ↦
                rw (long, digit)
                  (sym (
                    overflows (value rest (acc * 32 + char_value ch)) (
                      omega (
                        arith,
                        scaled_mono 13 1 (acc * 32 + char_value ch) (ground arith),
                        scaled-le-value 13 rest (acc * 32 + char_value ch) (ground arith),
                      ))))
          ]
      | inr short ↦ elim (Bool-cases (ltb (acc * 32 + char_value ch) u64_limit)) [
        | inl fits ↦
            rw (short, shift_in_fits acc (char_value ch) fits)
              (decode_loop_lem rest (acc * 32 + char_value ch)
                (ltb→lt (acc * 32 + char_value ch) u64_limit fits) (λ long. absurd (ground arith)))
        | inr too_large ↦
            let large : u64_limit ≤ acc * 32 + char_value ch = ground arith in
            rw (short, shift_in_overflows acc (char_value ch) too_large)
              (sym (
                overflows (value rest (acc * 32 + char_value ch))
                  (omega (arith, scaled-le-value 0 rest (acc * 32 + char_value ch) (omega arith)))))
      ]
    ]

-- On every text `decode_u64` answers what the normalized text denotes in base 32, or `overflow`
-- when that is not below 2^64; the prefix of zeros and the checked steps change nothing else.
pub decode_u64_exact :
    (text : List ℕ)
    → decode_u64 text ≡ and_then (normalize text) (λ normalized. bounded (numeral normalized))
unfolding decode_u64
decode_u64_exact text =
    ap (λ k. and_then (normalize text) k)
      (λ i normalized. decode_loop_lem normalized 0 (omega arith) (λ _. refl) i)
