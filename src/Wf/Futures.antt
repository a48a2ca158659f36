-- ===== src/Wf/Futures.antt =====
-- What the patterns take from the crates tokio and futures. A future is a step on the state `W` of
-- everything outside of the workflow, and an activity is one such step. The combinators are
-- parameters; the laws are what their documentation says of the order and number of results.
use mathlib.Core.List.{Permᴰ}
pub use altair_rs.Prelude.Async.{Fut}
use altair_rs.Prelude.{ℕ, ◌<◌, ◌≡◌, ap, List, [], ◌∷◌}
use altair_rs.Wf.Error.{Result, ok, err}

module _ {W A : Type 0} where
  -- Each result is what its future gives in some state.
  abbrev pub Runs : List (Fut W A) → List A → Type 0
  Runs [] [] = Unit
  Runs [] (r ∷ rs) = ⊥
  Runs (f ∷ fs) [] = ⊥
  Runs (f ∷ fs) (r ∷ rs) = ((w : W) × (r ≡ (f w).0)) × Runs fs rs

-- Rust's `?` in an async body: an error ends it where it stands.
abbrev pub and_then : {W A B : Type 0} → Result A → (A → Fut W (Result B)) → Fut W (Result B)
and_then (ok a) f w = f a w
and_then (err e) f w = (err e, w)

-- A step whose answer is known.
pub answered : {W A : Type 0} (x : A × W) {a : A} → x.0 ≡ a → x ≡ (a, x.1)
answered x h = ap (λ a. (a, x.1)) h

pub record Futures (W : Type 0) : Type 1 where
  pub join_all : (A : Type 0) → List (Fut W A) → Fut W (List A)
  pub buffer_unordered : (A : Type 0) → ℕ → List (Fut W A) → Fut W (List A)
  -- `join_all` gives the results in the order of the futures.
  pub join_all_in_order : (A : Type 0) (fs : List (Fut W A)) (w : W) → Runs fs (join_all A fs w).0
  -- `buffer_unordered` gives each future's result once, in any order of completion.
  pub buffer_unordered_complete :
      (A : Type 0) (n : ℕ) (fs : List (Fut W A)) (w : W)
      → 0 < n
      → (rs : List A) × Runs fs rs × Permᴰ (buffer_unordered A n fs w).0 rs
