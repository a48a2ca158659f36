-- ===== src/Base32/U64/Digits.antt =====
-- crates/altair-base32/src/u64.rs: the alphabet, digit by digit.
use altair_rs.Prelude.{
  ℕ, zero, suc, ◌*◌, ◌<◌, ◌≡◌, refl, inl, inr, Bool, true, ◌&&◌, arith, ltb, ◌==◌, Bool-cases,
  ==_iff, ltb→lt,
}
use altair_rs.Base32.Bytes.{is_canonical}
use altair_rs.Base32.U64.{symbol, char_value}

-- 32 to the power of the number of slots.
abbrev pub capacity : ℕ → ℕ
capacity zero = 1
capacity (suc slots) = capacity slots * 32

-- A test of every number below a bound.
abbrev pub all_below : ℕ → (ℕ → Bool) → Bool
all_below zero p = true
all_below (suc n) p = p n && all_below n p

pub all_below_lem : (n : ℕ) (p : ℕ → Bool) → all_below n p ≡ true → (d : ℕ) → d < n → p d ≡ true
all_below_lem zero p h d lt = absurd (omega arith)
all_below_lem (suc n) p h d lt = elim (Bool-cases (d == n)) [
  | inl same ↦ let e : d ≡ n = ground arith in rw e (ground arith)
  | inr other ↦ all_below_lem n p (ground arith) d (ground arith)
]

canonical_checked : all_below 32 (λ d. is_canonical (symbol d)) ≡ true
unfolding symbol
canonical_checked = refl

values_checked : all_below 32 (λ d. char_value (symbol d) == d) ≡ true
unfolding symbol char_value
values_checked = refl

order_checked : all_below 32 (λ e. all_below e (λ d. ltb (symbol d) (symbol e))) ≡ true
unfolding symbol
order_checked = refl

pub symbol-is_canonical : (d : ℕ) → d < 32 → is_canonical (symbol d) ≡ true
symbol-is_canonical d h = all_below_lem 32 (λ d. is_canonical (symbol d)) canonical_checked d h

pub char_value-symbol : (d : ℕ) → d < 32 → char_value (symbol d) ≡ d
char_value-symbol d h =
    (==_iff (char_value (symbol d)) d).0
      (all_below_lem 32 (λ d. char_value (symbol d) == d) values_checked d h)

pub symbol-lt : (d e : ℕ) → d < e → e < 32 → symbol d < symbol e
symbol-lt d e h k = ltb→lt (symbol d) (symbol e) (
    all_below_lem e (λ d. ltb (symbol d) (symbol e))
      (all_below_lem 32 (λ e. all_below e (λ d. ltb (symbol d) (symbol e))) order_checked e k) d h)
