-- ===== src/Base32/Check/Corrupted.antt =====
-- crates/altair-base32/src/check.rs: what the check digit detects.
use altair_rs.Prelude.{ℕ, zero, suc, ◌+◌, ◌*◌, ◌%◌, ◌<◌, ◌≡◌, ◌≢◌, List, arith}
use altair_rs.Base32.Check.{checksum}
use altair_rs.Base32.Check.Checksum.{number, checksum_lem}

-- `d` times 2 to the power `m`.
abbrev doubled : ℕ → ℕ → ℕ
doubled d zero = d
doubled d (suc m) = doubled (d * 2) m

-- 37 divides no doubled number that it does not divide.
halve : (m d : ℕ) → doubled d m % 37 ≡ 0 → d % 37 ≡ 0
halve zero d h = h
halve (suc m) d h = omega (arith, halve m (d * 2) h)

-- Bytes whose numbers differ by a positive multiple of a power of two, less than 37 times it, have
-- different checksums.
pub checksum_detects :
    (xs ys : List ℕ) (d m : ℕ)
    → number xs ≡ number ys + doubled d m
    → 0 < d
    → d < 37
    → checksum xs ≢ checksum ys
checksum_detects xs ys d m h pos small same =
    omega (arith, halve m d (omega (arith, h, same, checksum_lem xs, checksum_lem ys)))
