-- ===== src/Wf/Chunk/Truncation.antt =====
-- crates/altair-wf/src/datasync/chunk/sync.rs: the cap on the partitions of one execution.
use mathlib.Core.List.{append-nil}
use altair_rs.Prelude.{
  ℕ, zero, suc, ◌<◌, ◌≡◌, refl, sym, ap, inl, inr, true, List, [], ◌∷◌, ◌++◌, ◌==◌, ◌&&◌,
  if◌then◌else◌, not, is_empty, Bool-cases, ltb, length, take, drop, arith,
}
use altair_rs.Wf.Chunk.{is_deferred, truncated}

module _ {A : Type 0} where
  -- What the truncation leaves for a later execution.
  abbrev pub beyond : ℕ → List A → List A
  beyond cap parts = if is_deferred cap parts then drop cap parts else []

  take-drop : (n : ℕ) (xs : List A) → take n xs ++ drop n xs ≡ xs
  take-drop zero xs = refl
  take-drop (suc n) [] = refl
  take-drop (suc n) (x ∷ xs) = ap (λ l. x ∷ l) (take-drop n xs)

  pub truncated-beyond :
      (cap : ℕ) (parts : List A) → truncated cap parts ++ beyond cap parts ≡ parts
  unfolding truncated
  truncated-beyond cap parts = elim (Bool-cases (is_deferred cap parts)) [
    | inl more ↦ rw more (take-drop cap parts)
    | inr all ↦ rw all (append-nil parts)
  ]

  longer : (n : ℕ) (xs : List A) → n < length xs → not (is_empty (drop n xs)) ≡ true
  longer n [] h = absurd (omega arith)
  longer zero (x ∷ xs) h = refl
  longer (suc n) (x ∷ xs) h = longer n xs (omega arith)

  pub is_deferred-beyond :
      (cap : ℕ) (parts : List A) → is_deferred cap parts ≡ not (is_empty (beyond cap parts))
  unfolding is_deferred
  is_deferred-beyond cap parts = elim (Bool-cases (ltb 0 cap && ltb cap (length parts))) [
    | inl more ↦ rw more (sym (longer cap parts (ground arith)))
    | inr all ↦ rw all
  ]

  -- At most so many; zero is no cap.
  abbrev pub first_of : ℕ → List A → List A
  first_of cap parts = if cap == 0 then parts else take cap parts

  take-all : (n : ℕ) (xs : List A) → length xs < suc n → take n xs ≡ xs
  take-all zero [] h = refl
  take-all (suc n) [] h = refl
  take-all zero (x ∷ xs) h = absurd (omega arith)
  take-all (suc n) (x ∷ xs) h = ap (λ l. x ∷ l) (take-all n xs (omega arith))

  pub truncated_lem : (cap : ℕ) (parts : List A) → truncated cap parts ≡ first_of cap parts
  unfolding truncated is_deferred
  truncated_lem cap parts = elim (Bool-cases (cap == 0)) [
    | inl no_cap ↦ ground arith
    | inr capped ↦ elim (Bool-cases (ltb cap (length parts))) [
      | inl more ↦ ground arith
      | inr all ↦ ground (arith, take-all cap parts (ground arith))
    ]
  ]
