-- ===== src/Base32/U64/Sorted.antt =====
-- crates/altair-base32/src/u64.rs: the order of the texts of `encode_u64`.
use altair_rs.Prelude.{
  ℕ, zero, suc, ◌/◌, ◌%◌, ◌<◌, ◌≡◌, sym, ◌∙◌, ap, inl, inr, Bool, true, false, List, [], ◌∷◌, arith,
  ltb, if◌then◌else◌, Bool-cases,
}
use altair_rs.Base32.U64.{symbol, encode_slots, encode_u64, u64_limit}
use altair_rs.Base32.U64.Digits.{capacity, symbol-lt}

-- Rust's `<` on `String`: the bytes in lexicographic order.
unfoldable pub text_lt : List ℕ → List ℕ → Bool
text_lt [] [] = false
text_lt [] (d ∷ t) = true
text_lt (c ∷ s) [] = false
text_lt (c ∷ s) (d ∷ t) =
    let rest = text_lt s t in if ltb c d then true else if ltb d c then false else rest

-- The order of two digits, and of what follows where they are equal.
abbrev decided : ℕ → ℕ → Bool → Bool
decided n m rest = if ltb n m then true else if ltb m n then false else rest

decided_same : (n : ℕ) (rest : Bool) → decided n n rest ≡ rest
decided_same n rest = ground arith

decided-symbol :
    (n m : ℕ) (rest : Bool)
    → n < 32
    → m < 32
    → decided (symbol n) (symbol m) rest ≡ decided n m rest
decided-symbol n m rest h k = elim (Bool-cases (ltb n m)) [
  | inl less ↦ ground (arith, symbol-lt n m)
  | inr not_less ↦ elim (Bool-cases (ltb m n)) [
    | inl greater ↦ ground (arith, symbol-lt m n)
    | inr not_greater ↦
        let e : n ≡ m = ground arith in
        rw e (decided_same (symbol m) rest ∙ sym (decided_same m rest))
  ]
]

decided-div :
    (n m : ℕ) (rest : Bool)
    → decided (n / 32) (m / 32) (decided (n % 32) (m % 32) rest) ≡ decided n m rest
decided-div n m rest = ground arith

decided_bool : (n m : ℕ) → decided n m false ≡ ltb n m
decided_bool n m = ground arith

text_lt-encode_slots :
    (slots n m : ℕ) (s t : List ℕ)
    → n < capacity slots
    → m < capacity slots
    → text_lt (encode_slots slots n s) (encode_slots slots m t) ≡ decided n m (text_lt s t)
unfolding text_lt encode_slots
text_lt-encode_slots zero n m s t h k = ground arith
text_lt-encode_slots (suc slots) n m s t h k =
    text_lt-encode_slots slots (n / 32) (m / 32) (symbol (n % 32) ∷ s) (symbol (m % 32) ∷ t)
      (omega arith) (omega arith)
    ∙ ap (λ b. decided (n / 32) (m / 32) b)
        (decided-symbol (n % 32) (m % 32) (text_lt s t) (omega arith) (omega arith))
    ∙ decided-div n m (text_lt s t)

-- The texts of two `u64` compare as the numbers.
pub text_lt-encode_u64 :
    (n m : ℕ) → n < u64_limit → m < u64_limit → text_lt (encode_u64 n) (encode_u64 m) ≡ ltb n m
unfolding encode_u64 text_lt
text_lt-encode_u64 n m h k =
    text_lt-encode_slots 13 n m [] [] (omega arith) (omega arith) ∙ decided_bool n m
