-- ===== src/Wf/Patterns/FanOut.antt =====
-- The fan-out gives the outcomes in the order of the tasks, whatever the cap and the order in which
-- the activities complete.
use mathlib.Core.List.{Permᴰ}
use mathlib.Core.List.Permᴰ as PermD
use mathlib.Core.Path.{subst}
use altair_rs.Prelude.{
  ℕ, zero, suc, ◌+◌, ◌<◌, ◌≡◌, refl, ◌∙◌, sym, ap, ap₂, List, [], ◌∷◌, map, enumerate, ◌==◌, false,
  le→leb, All, All-imp, arith,
}
use altair_rs.Prelude.Order.{nat_order, sort_by_key, HasDistinctKeys, IsSortedByKey}
use altair_rs.Prelude.Order.Sorted.{sort_by_key-perm, sort_by_key_sorted}
use altair_rs.Wf.Error.{Result}
use altair_rs.Wf.Task.{TaskInput, TaskOutput}
use altair_rs.Wf.Futures.{Fut, Futures, Runs}
use altair_rs.Wf.Patterns.{tagged, fan_out}

module _ {A : Type 0} where
  -- The indices that `enumerate` gives rise from the first one on.
  enumerate-above : (i j : ℕ) (xs : List A) → i < j → All (λ p. i < p.0) (enumerate j xs)
  enumerate-above i j [] h = tt
  enumerate-above i j (x ∷ xs) h = (h, enumerate-above i (j + 1) xs (omega arith))

  enumerate-HasDistinctKeys :
      (i : ℕ) (xs : List A) → HasDistinctKeys (λ (p : ℕ × A). p.0) (enumerate i xs)
  enumerate-HasDistinctKeys i [] = tt
  enumerate-HasDistinctKeys i (x ∷ xs) = (
    All-imp _ _ (enumerate (i + 1) xs) (λ p h e. omega arith)
        (enumerate-above i (i + 1) xs (omega arith)),
    enumerate-HasDistinctKeys (i + 1) xs,
  )

  enumerate-IsSortedByKey :
      (i : ℕ) (xs : List A) → IsSortedByKey (λ (p : ℕ × A). p.0) (enumerate i xs)
  enumerate-IsSortedByKey i [] = tt
  enumerate-IsSortedByKey i (x ∷ xs) = (
    All-imp _ _ (enumerate (i + 1) xs) (λ p h. le→leb i p.0 (omega arith))
        (enumerate-above i (i + 1) xs (omega arith)),
    enumerate-IsSortedByKey (i + 1) xs,
  )

  map-enumerate : (i : ℕ) (xs : List A) → map (λ (p : ℕ × A). p.1) (enumerate i xs) ≡ xs
  map-enumerate i [] = refl
  map-enumerate i (x ∷ xs) = ap (λ l. x ∷ l) (map-enumerate (i + 1) xs)

  -- Sorting any rearrangement of tagged values by the tags gives the values in their order.
  untag :
      (xs : List A) {ys : List (ℕ × A)}
      → Permᴰ ys (enumerate 0 xs)
      → map (λ p. p.1) (sort_by_key (λ p. p.0) ys) ≡ xs
  untag xs p =
      ap (map (λ (p : ℕ × A). p.1)) (
        sym (sort_by_key-perm _ (PermD.symm p) (enumerate-HasDistinctKeys 0 xs))
        ∙ sort_by_key_sorted _ _ (enumerate-IsSortedByKey 0 xs))
      ∙ map-enumerate 0 xs

module _ {W I O : Type 0} ⦃ti : TaskInput I⦄ ⦃to : TaskOutput O⦄
    (execute_one : I → Fut W (Result O)) where
  -- The results of tagged futures are the tagged results of the futures.
  Runs-tagged :
      (i : ℕ) (inputs : List I) (rs : List (ℕ × Result O))
      → Runs (map (tagged execute_one) (enumerate i inputs)) rs
      → (outcomes : List (Result O)) × Runs (map execute_one inputs) outcomes
        × (rs ≡ enumerate i outcomes)
  Runs-tagged i [] [] h = ([], tt, refl)
  Runs-tagged i [] (r ∷ rs) h = elim h [ ]
  Runs-tagged i (x ∷ xs) [] h = elim h [ ]
  Runs-tagged i (x ∷ xs) (r ∷ rs) ((w, e), h) =
      let (outcomes, runs, es) = Runs-tagged (i + 1) xs rs h in
      ((execute_one x w).0 ∷ outcomes, ((w, refl), runs), ap₂ ◌∷◌ e es)

  pub fan_out-Runs :
      (lib : Futures W) (max_in_flight : ℕ) (inputs : List I) (w : W)
      → Runs (map execute_one inputs) (fan_out execute_one lib max_in_flight inputs w).0
  unfolding fan_out
  fan_out-Runs lib zero inputs w = lib.join_all_in_order (Result O) (map execute_one inputs) w
  fan_out-Runs lib (suc n) inputs w =
      let (rs, runs, p) =
        lib.buffer_unordered_complete (ℕ × Result O) (suc n)
          (map (tagged execute_one) (enumerate 0 inputs)) w (omega arith) in
      let (outcomes, ordered, e) = Runs-tagged 0 inputs rs runs in
      let capped : (suc n == 0) ≡ false = ground arith in
      rw capped
        (subst (Runs (map execute_one inputs)) (sym (untag outcomes (subst (Permᴰ _) e p))) ordered)

  -- Where an activity's result depends on its input alone, there is one list of outcomes.
  Runs-pure :
      (f : I → Result O) (inputs : List I) (outcomes : List (Result O))
      → ((input : I) (w : W) → (execute_one input w).0 ≡ f input)
      → Runs (map execute_one inputs) outcomes
      → outcomes ≡ map f inputs
  Runs-pure f [] [] pure h = refl
  Runs-pure f [] (r ∷ rs) pure h = elim h [ ]
  Runs-pure f (x ∷ xs) [] pure h = elim h [ ]
  Runs-pure f (x ∷ xs) (r ∷ rs) pure ((w, e), h) = ap₂ ◌∷◌ (e ∙ pure x w) (Runs-pure f xs rs pure h)

  pub fan_out-pure :
      (lib : Futures W) (f : I → Result O) (max_in_flight : ℕ) (inputs : List I) (w : W)
      → ((input : I) (w : W) → (execute_one input w).0 ≡ f input)
      → (fan_out execute_one lib max_in_flight inputs w).0 ≡ map f inputs
  fan_out-pure lib f n inputs w pure = Runs-pure f inputs _ pure (fan_out-Runs lib n inputs w)
