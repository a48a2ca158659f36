-- ===== src/Prelude/Order/Sorted.antt =====
-- Sorting by keys that are all different forgets the order in which the elements came.
use mathlib.Core.Path.{◌≡◌, refl, sym, ap, ◌∙◌, subst}
use mathlib.Core.Bool.{true, false}
use mathlib.Core.Logic.{◌≢◌, ◌⊎◌, inl, inr}
use mathlib.Core.List.{List, [], ◌∷◌, Permᴰ}
use mathlib.Core.List.Permᴰ as PermD
use altair_rs.Prelude.Tests.{Bool-cases}
use native.Mathlib.Omega.{arith}
use altair_rs.Prelude.Lists.{All, All-imp, is_empty}
use altair_rs.Prelude.Order.{TotalOrder, insert_by_key, sort_by_key, HasDistinctKeys, IsSortedByKey}

pub All-perm {κ} :
    {A : Type 0} (P : A → Type κ) {xs ys : List A} → Permᴰ xs ys → All P xs → All P ys
All-perm P Permᴰ.nil h = tt
All-perm P (Permᴰ.cons e p) (h, hs) = (rw e at h, All-perm P p hs)
All-perm P (Permᴰ.swap e f) (h, (k, hs)) = (rw f at k, (rw e at h, hs))
All-perm P (Permᴰ.trans p q) h = All-perm P q (All-perm P p h)

pub is_empty-perm : {A : Type 0} {xs ys : List A} → Permᴰ xs ys → is_empty xs ≡ is_empty ys
is_empty-perm Permᴰ.nil = refl
is_empty-perm (Permᴰ.cons e p) = refl
is_empty-perm (Permᴰ.swap e f) = refl
is_empty-perm (Permᴰ.trans p q) = is_empty-perm p ∙ is_empty-perm q

module _ {A K : Type 0} (key : A → K) where
  pub HasDistinctKeys-perm :
      {xs ys : List A} → Permᴰ xs ys → HasDistinctKeys key xs → HasDistinctKeys key ys
  HasDistinctKeys-perm Permᴰ.nil d = tt
  HasDistinctKeys-perm (Permᴰ.cons {l₂ = ys} e p) (h, hs) =
      (rw e at (All-perm (λ y. key _ ≢ key y) p h), HasDistinctKeys-perm p hs)
  HasDistinctKeys-perm (Permᴰ.swap {l = l} e f) ((xy, xs), (ys, hs)) = (
    (λ h. xy (ap key e ∙ sym h ∙ sym (ap key f)), subst (λ x. All (λ y. key x ≢ key y) l) f ys),
    (subst (λ x. All (λ y. key x ≢ key y) l) e xs, hs),
  )
  HasDistinctKeys-perm (Permᴰ.trans p q) d = HasDistinctKeys-perm q (HasDistinctKeys-perm p d)

module _ {A K : Type 0} ⦃o : TotalOrder K⦄ (key : A → K) where
  insert_by_key_comm :
      (x y : A) (l : List A)
      → key x ≢ key y
      → insert_by_key key x (insert_by_key key y l) ≡ insert_by_key key y (insert_by_key key x l)
  unfolding insert_by_key
  insert_by_key_comm x y [] d = ground (arith, o.total (key x) (key y), o.antisymm (key x) (key y))
  insert_by_key_comm x y (z ∷ l) d = ground (
    arith,
    o.total (key x) (key y),
    o.antisymm (key x) (key y),
    o.trans (key x) (key y) (key z),
    o.trans (key y) (key x) (key z),
    insert_by_key_comm x y l d,
  )

  pub sort_by_key-perm :
      {xs ys : List A}
      → Permᴰ xs ys
      → HasDistinctKeys key xs
      → sort_by_key key xs ≡ sort_by_key key ys
  unfolding sort_by_key
  sort_by_key-perm Permᴰ.nil d = refl
  sort_by_key-perm (Permᴰ.cons e p) (h, hs) = rw (e, sort_by_key-perm p hs)
  sort_by_key-perm (Permᴰ.swap e f) ((xy, _), _) = rw (← e, ← f) (insert_by_key_comm _ _ _ xy)
  sort_by_key-perm (Permᴰ.trans p q) d =
      sort_by_key-perm p d ∙ sort_by_key-perm q (HasDistinctKeys-perm key p d)

  pub sort_by_key_sorted : (xs : List A) → IsSortedByKey key xs → sort_by_key key xs ≡ xs
  unfolding sort_by_key
  sort_by_key_sorted [] h = refl
  sort_by_key_sorted (x ∷ []) h = refl
  sort_by_key_sorted (x ∷ y ∷ xs) ((h, _), hs) =
      ap (insert_by_key key x) (sort_by_key_sorted (y ∷ xs) hs) ∙ rw h

  perm-insert_by_key : (x : A) (l : List A) → Permᴰ (x ∷ l) (insert_by_key key x l)
  unfolding insert_by_key
  perm-insert_by_key x [] = PermD.refl (x ∷ [])
  perm-insert_by_key x (y ∷ l) = elim (Bool-cases (o.le (key x) (key y))) [
    | inl le ↦ rw le (PermD.refl (x ∷ y ∷ l))
    | inr gt ↦ rw gt (Permᴰ.trans (Permᴰ.swap refl refl) (Permᴰ.cons refl (perm-insert_by_key x l)))
  ]

  pub perm-sort_by_key : (xs : List A) → Permᴰ xs (sort_by_key key xs)
  unfolding sort_by_key
  perm-sort_by_key [] = Permᴰ.nil
  perm-sort_by_key (x ∷ xs) =
      Permᴰ.trans (Permᴰ.cons refl (perm-sort_by_key xs))
        (perm-insert_by_key x (sort_by_key key xs))

  insert_by_key-IsSortedByKey :
      (x : A) (l : List A) → IsSortedByKey key l → IsSortedByKey key (insert_by_key key x l)
  unfolding insert_by_key
  insert_by_key-IsSortedByKey x [] h = (tt, tt)
  insert_by_key-IsSortedByKey x (y ∷ l) (h, hs) = elim (Bool-cases (o.le (key x) (key y))) [
    | inl le ↦
        rw le ((le, All-imp _ _ l (λ z yz. o.trans (key x) (key y) (key z) le yz) h), (h, hs))
    | inr gt ↦
        let yx : o.le (key y) (key x) ≡ true = below (o.total (key x) (key y)) gt in
        rw gt (
          All-perm (λ z. o.le (key y) (key z) ≡ true) (perm-insert_by_key x l) (yx, h),
          insert_by_key-IsSortedByKey x l hs,
        )
  ]
    where
      below :
          (o.le (key x) (key y) ≡ true) ⊎ (o.le (key y) (key x) ≡ true)
          → o.le (key x) (key y) ≡ false
          → o.le (key y) (key x) ≡ true
      below (inl le) gt = cc
      below (inr ge) gt = ge

  pub sort_by_key-IsSortedByKey : (xs : List A) → IsSortedByKey key (sort_by_key key xs)
  unfolding sort_by_key
  sort_by_key-IsSortedByKey [] = tt
  sort_by_key-IsSortedByKey (x ∷ xs) =
      insert_by_key-IsSortedByKey x (sort_by_key key xs) (sort_by_key-IsSortedByKey xs)
