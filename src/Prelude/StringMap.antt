-- ===== src/Prelude/StringMap.antt =====
-- A `HashMap` with text keys, as an association list. Its order stands for the order in which the
-- map is iterated, which the program must not depend on.
use mathlib.Core.Path.{◌≡◌, refl, ◌∙◌}
use mathlib.Core.Logic.{◌≢◌}
use mathlib.Core.Bool.{Bool, false, ◌||◌}
use mathlib.Core.List.{List, [], ◌∷◌, map, Permᴰ}
use mathlib.Core.Option.{Option, none, some}
use native.Mathlib.Omega.{arith}
use altair_rs.Prelude.Tests.{if◌then◌else◌}
use altair_rs.Prelude.Lists.{All}
use altair_rs.Prelude.Order.{HasDistinctKeys}
use altair_rs.Prelude.Order.Sorted.{HasDistinctKeys-perm}
use altair_rs.Prelude.Text.{String, str_eq, eq_iff}

module _ {V : Type 0} where
  abbrev pub keys : List (String × V) → List String
  keys m = map (λ p. p.0) m

  -- `HashMap::insert`: a present key keeps its place and gets the new value.
  unfoldable pub insert : String → V → List (String × V) → List (String × V)
  insert key value [] = (key, value) ∷ []
  insert key value (entry ∷ rest) =
      if str_eq entry.0 key then (key, value) ∷ rest else entry ∷ insert key value rest

  -- `HashMap::get`.
  unfoldable pub lookup : String → List (String × V) → Option V
  lookup key [] = none
  lookup key (entry ∷ rest) = if str_eq entry.0 key then some entry.1 else lookup key rest

  pub lookup-insert :
      (key other : String) (value : V) (m : List (String × V))
      → lookup other (insert key value m)
        ≡ (if str_eq key other then some value else lookup other m)
  unfolding insert lookup
  lookup-insert key other value [] = refl
  lookup-insert key other value (entry ∷ rest) = ground (
    arith,
    lookup-insert key other value rest,
    eq_iff key other,
    eq_iff entry.0 key,
    eq_iff entry.0 other,
  )

  -- No key stands twice, as in every `HashMap`.
  abbrev pub HasDistinctEntries : List (String × V) → Type 0
  HasDistinctEntries = HasDistinctKeys (λ p. p.0)

  All-keys {κ} : (P : String → Type κ) (m : List (String × V)) → All (λ p. P p.0) m → All P (keys m)
  All-keys P [] h = tt
  All-keys P (p ∷ m) (h, hs) = (h, All-keys P m hs)

  pub HasDistinctKeys-keys :
      (m : List (String × V)) → HasDistinctEntries m → HasDistinctKeys (λ k. k) (keys m)
  HasDistinctKeys-keys [] d = tt
  HasDistinctKeys-keys (p ∷ m) (h, hs) = (All-keys (λ k. p.0 ≢ k) m h, HasDistinctKeys-keys m hs)

  pub lookup-perm :
      (k : String) {m n : List (String × V)}
      → Permᴰ m n
      → HasDistinctEntries m
      → lookup k m ≡ lookup k n
  unfolding lookup
  lookup-perm k Permᴰ.nil d = refl
  lookup-perm k (Permᴰ.cons e p) (_, ds) = rw (e, lookup-perm k p ds)
  lookup-perm k (Permᴰ.swap {a = a} {b = b} e f) ((ab, _), _) =
      rw (← e, ← f) (ground (arith, eq_iff a.0 k, eq_iff b.0 k))
  lookup-perm k (Permᴰ.trans p q) d =
      lookup-perm k p d ∙ lookup-perm k q (HasDistinctKeys-perm (λ p. p.0) p d)

-- A `HashSet` of texts.
unfoldable pub contains : String → List String → Bool
contains k [] = false
contains k (x ∷ xs) = str_eq x k || contains k xs
