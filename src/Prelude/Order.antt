-- ===== src/Prelude/Order.antt =====
-- Rust's stable sort, over an interface of total orders on keys.
pub mod Sorted
use Prim.Native.Nat.{ℕ}
use mathlib.Core.Path.{◌≡◌, refl, sym, ap, ◌∙◌}
use mathlib.Core.Logic.{◌≢◌, ◌⊎◌, inl, inr}
use mathlib.Core.Bool.{Bool, true, false}
use mathlib.Core.List.{List, [], ◌∷◌, Permᴰ}
use native.Mathlib.Omega.{arith}
use altair_rs.Prelude.Tests.{leb, leb→le, le→leb, if◌then◌else◌, Bool-cases}
use altair_rs.Prelude.Lists.{All}
use altair_rs.Prelude.Text.{String, text_leb, text_leb_total, text_leb_trans, text_leb_antisymm}

-- What `Ord` promises of the type of the keys.
pub record TotalOrder (K : Type 0) : Type 0 where
  pub le : K → K → Bool
  pub total : (a b : K) → (le a b ≡ true) ⊎ (le b a ≡ true)
  pub trans : (a b c : K) → le a b ≡ true → le b c ≡ true → le a c ≡ true
  pub antisymm : (a b : K) → le a b ≡ true → le b a ≡ true → a ≡ b

pub leb_total : (a b : ℕ) → (leb a b ≡ true) ⊎ (leb b a ≡ true)
leb_total a b = ground arith

pub leb_trans : (a b c : ℕ) → leb a b ≡ true → leb b c ≡ true → leb a c ≡ true
leb_trans a b c p q = ground arith

pub leb_antisymm : (a b : ℕ) → leb a b ≡ true → leb b a ≡ true → a ≡ b
leb_antisymm a b p q = ground arith

instance abbrev pub nat_order : TotalOrder ℕ
nat_order = record { le = leb; total = leb_total; trans = leb_trans; antisymm = leb_antisymm }

instance abbrev pub text_order : TotalOrder String
text_order = record {
  le = text_leb;
  total = text_leb_total;
  trans = text_leb_trans;
  antisymm = text_leb_antisymm;
}

module _ {A K : Type 0} (key : A → K) where
  abbrev pub HasDistinctKeys : List A → Type 0
  HasDistinctKeys [] = Unit
  HasDistinctKeys (x ∷ xs) = All (λ y. key x ≢ key y) xs × HasDistinctKeys xs

module _ {A K : Type 0} ⦃o : TotalOrder K⦄ (key : A → K) where
  unfoldable pub insert_by_key : A → List A → List A
  insert_by_key x [] = x ∷ []
  insert_by_key x (y ∷ ys) = if o.le (key x) (key y) then x ∷ y ∷ ys else y ∷ insert_by_key x ys

  -- `slice::sort_by_key`: stable, so equal keys keep their order.
  unfoldable pub sort_by_key : List A → List A
  unfolding insert_by_key
  sort_by_key [] = []
  sort_by_key (x ∷ xs) = insert_by_key x (sort_by_key xs)

  abbrev pub IsSortedByKey : List A → Type 0
  IsSortedByKey [] = Unit
  IsSortedByKey (x ∷ xs) = All (λ y. o.le (key x) (key y) ≡ true) xs × IsSortedByKey xs
