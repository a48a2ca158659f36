-- ===== src/Concurrent/Pick.antt =====
-- Lists of entries under distinct keys, and what taking one out does to a lookup.
use altair_rs.Prelude.{
  ◌≡◌, refl, sym, ap, ◌∙◌, inl, inr, true, false, none, some, List, [], ◌∷◌, ◌++◌, if◌then◌else◌,
  Bool-cases,
}
use altair_rs.Prelude.Text.{String, str_eq, eq_iff}
use altair_rs.Prelude.StringMap.{lookup}

-- No key stands twice.
abbrev pub IsDistinct : {V : Type 0} → List (String × V) → Type 0
IsDistinct [] = Unit {0}
IsDistinct (x ∷ xs) = (lookup x.0 xs ≡ none) × IsDistinct xs

module _ {V : Type 0} where
  -- A key that is in neither part is not in the whole, and the converse.
  lookup-without :
      (k : String) (before : List (String × V)) (x : String × V) (after : List (String × V))
      → lookup k (before ++ (x ∷ after)) ≡ none
      → (str_eq x.0 k ≡ false) × (lookup k (before ++ after) ≡ none)
  unfolding lookup
  lookup-without k [] x after h = elim (Bool-cases (str_eq x.0 k)) [
    | inl same ↦ absurd (let e : some x.1 ≡ none = rw same at h in cc)
    | inr other ↦ (other, rw other at h)
  ]
  lookup-without k (y ∷ before) x after h = elim (Bool-cases (str_eq y.0 k)) [
    | inl same ↦ absurd (let e : some y.1 ≡ none = rw same at h in cc)
    | inr other ↦
        let (apart, left) = lookup-without k before x after (rw other at h) in
        (apart, rw other left)
  ]

  -- Taking out an entry of distinct keys leaves the lookups of the others, and none of its key.
  pub lookup-pick :
      (before : List (String × V)) (x : String × V) (after : List (String × V)) (k : String)
      → IsDistinct (before ++ (x ∷ after))
      → lookup k (before ++ (x ∷ after))
        ≡ (if str_eq x.0 k then some x.1 else lookup k (before ++ after))
  unfolding lookup
  lookup-pick [] x after k h = refl
  lookup-pick (y ∷ before) x after k (fresh, h) = elim (Bool-cases (str_eq y.0 k)) [
    | inl same ↦
        let (apart, _) = lookup-without y.0 before x after fresh in
        rw (same, ap (str_eq x.0) (sym ((eq_iff y.0 k).0 same)) ∙ apart)
    | inr other ↦ rw other (lookup-pick before x after k h)
  ]

  pub lookup-picked :
      (before : List (String × V)) (x : String × V) (after : List (String × V))
      → IsDistinct (before ++ (x ∷ after))
      → lookup x.0 (before ++ after) ≡ none
  unfolding lookup
  lookup-picked [] x after h = h.0
  lookup-picked (y ∷ before) x after (fresh, h) = elim (Bool-cases (str_eq y.0 x.0)) [
    | inl same ↦
        let (apart, _) = lookup-without y.0 before x after fresh in
        absurd
          (let e : str_eq x.0 y.0 ≡ true = (eq_iff x.0 y.0).1 (sym ((eq_iff y.0 x.0).0 same)) in cc)
    | inr other ↦ rw other (lookup-picked before x after h)
  ]

  pub pick-IsDistinct :
      (before : List (String × V)) (x : String × V) (after : List (String × V))
      → IsDistinct (before ++ (x ∷ after))
      → IsDistinct (before ++ after)
  pick-IsDistinct [] x after h = h.1
  pick-IsDistinct (y ∷ before) x after (fresh, h) =
      ((lookup-without y.0 before x after fresh).1, pick-IsDistinct before x after h)
