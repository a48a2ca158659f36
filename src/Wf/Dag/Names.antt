-- ===== src/Wf/Dag/Names.antt =====
-- Sets of names as lists: how many there are, and when they are all.
use altair_rs.Prelude.{
  ◌<◌, ◌≤◌, ◌≡◌, refl, sym, ap, ◌∙◌, inl, inr, true, false, not, ◌&&◌, List, [], ◌∷◌, if◌then◌else◌,
  length, arith, Bool-cases,
}
use altair_rs.Prelude.Text.{String, str_eq, eq_iff}
use altair_rs.Prelude.StringMap.{contains}

unfoldable without : String → List String → List String
without d [] = []
without d (x ∷ xs) = let rest = without d xs in if str_eq x d then rest else x ∷ rest

contains-without :
    (k d : String) (xs : List String)
    → contains k (without d xs) ≡ (contains k xs && not (str_eq d k))
unfolding without contains
contains-without k d [] = refl
contains-without k d (x ∷ xs) =
    ground (arith, contains-without k d xs, eq_iff x d, eq_iff x k, eq_iff d k)

length-without_le : (d : String) (xs : List String) → length (without d xs) ≤ length xs
unfolding without
length-without_le d [] = omega arith
length-without_le d (x ∷ xs) = ground (arith, length-without_le d xs)

length-without :
    (d : String) (xs : List String) → contains d xs ≡ true → length (without d xs) < length xs
unfolding without contains
length-without d [] h = cc
length-without d (x ∷ xs) h = ground (arith, length-without d xs, length-without_le d xs)

abbrev pub IsSubset : List String → List String → Type 0
IsSubset xs ys = (k : String) → contains k xs ≡ true → contains k ys ≡ true

abbrev pub HasNoTwice : List String → Type 0
HasNoTwice [] = Unit {0}
HasNoTwice (x ∷ xs) = (contains x xs ≡ false) × HasNoTwice xs

pub str_eq_refl : (k : String) → str_eq k k ≡ true
str_eq_refl k = (eq_iff k k).1 refl

pub contains-here : (d : String) (ds : List String) → contains d (d ∷ ds) ≡ true
unfolding contains
contains-here d ds = rw (str_eq_refl d)

pub contains-later :
    (k d : String) (ds : List String) → contains k ds ≡ true → contains k (d ∷ ds) ≡ true
unfolding contains
contains-later k d ds h = ground (arith, h)

kept :
    (d k : String) (ds xs : List String)
    → contains d ds ≡ false
    → contains k ds ≡ true
    → contains k xs ≡ true
    → contains k (without d xs) ≡ true
kept d k ds xs fresh here there = elim (Bool-cases (str_eq d k)) [
  | inl same ↦
      let again : contains d ds ≡ true = ap (λ x. contains x ds) ((eq_iff d k).0 same) ∙ here in cc
  | inr other ↦ contains-without k d xs ∙ rw (other, there)
]

pub also :
    (k j : String) (ds xs : List String)
    → contains k xs ≡ true
    → IsSubset ds xs
    → contains j (k ∷ ds) ≡ true
    → contains j xs ≡ true
unfolding contains
also k j ds xs here sub at = elim (Bool-cases (str_eq k j)) [
  | inl same ↦ ap (λ x. contains x xs) (sym ((eq_iff k j).0 same)) ∙ here
  | inr other ↦ sub j (ground (arith, other, at))
]

length-subset : (ds xs : List String) → HasNoTwice ds → IsSubset ds xs → length ds ≤ length xs
length-subset [] xs h sub = omega arith
length-subset (d ∷ ds) xs (fresh, h) sub = omega (
  arith,
  length-without d xs (sub d (contains-here d ds)),
  length-subset ds (without d xs) h
      (λ k here. kept d k ds xs fresh here (sub k (contains-later k d ds here))),
)

-- As many names without repetition as there are in all are all of them.
pub all_of_them :
    (ds xs : List String) → HasNoTwice ds → IsSubset ds xs → length xs ≤ length ds → IsSubset xs ds
all_of_them ds xs h sub long k here = elim (Bool-cases (contains k ds)) [
  | inl found ↦ found
  | inr missing ↦
      absurd
        (omega (arith, length-subset (k ∷ ds) xs (missing, h) (λ j at. also k j ds xs here sub at)))
]
