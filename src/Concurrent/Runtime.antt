-- ===== src/Concurrent/Runtime.antt =====
-- What crates/altair-concurrent/src takes from tokio. A `JoinSet` is the list of its tasks that have
-- not been joined, each of a type `X` that `run` makes a step of; `K` is the type of tokens.
use altair_rs.Prelude.{ℕ, ◌≡◌, Bool, true, List, [], ◌∷◌, ◌++◌, Option, none, some}
use altair_rs.Prelude.Async.{Fut, Result, ok, err}

-- An answer of `join_next`: `none` of Rust, or a result with the tasks that are left.
pub data Joined (X A J : Type 0) : Type 0 where
  drained : Joined X A J
  joined : Result A J → List X → Joined X A J

-- A task is taken out of the set, and its result is what it gives in some state, or it has panicked
-- or been aborted; only an empty set has no task to join.
abbrev pub Joins : {W X A J : Type 0} → (X → Fut W A) → List X → Joined X A J → Type 0
Joins run set drained = set ≡ []
Joins {W} {X} run set (joined (ok a) rest) =
    (before after : List X) × (x : X) × (set ≡ before ++ (x ∷ after))
    × (rest ≡ before ++ after)
    × ((w : W) × (a ≡ (run x w).0))
Joins {X = X} run set (joined (err e) rest) =
    (before after : List X) × (x : X) × (set ≡ before ++ (x ∷ after)) × (rest ≡ before ++ after)

-- `tokio::time::timeout`, where none is the error that the time has elapsed.
abbrev pub JoinsInTime :
    {W X A J : Type 0} → (X → Fut W A) → List X → Option (Joined X A J) → Type 0
JoinsInTime run set none = Unit {0}
JoinsInTime run set (some answer) = Joins run set answer

pub record Runtime (W K J : Type 0) : Type 1 where
  pub join_next : (X A : Type 0) → (X → Fut W A) → List X → Fut W (Joined X A J)
  pub join_next_lem :
      (X A : Type 0) (run : X → Fut W A) (set : List X) (w : W)
      → Joins run set (join_next X A run set w).0
  pub timeout : (X A : Type 0) → ℕ → (X → Fut W A) → List X → Fut W (Option (Joined X A J))
  pub timeout_lem :
      (X A : Type 0) (d : ℕ) (run : X → Fut W A) (set : List X) (w : W)
      → JoinsInTime run set (timeout X A d run set w).0
  -- `JoinSet::shutdown` aborts the tasks of the set.
  pub shutdown : (X : Type 0) → List X → W → W
  -- `CancellationToken::default`, `cancel` and `is_cancelled`.
  pub new_token : Fut W K
  pub cancel : K → W → W
  pub is_cancelled : K → W → Bool
  pub cancel_lem : (k : K) (w : W) → is_cancelled k (cancel k w) ≡ true
  -- A token that is cancelled stays so.
  pub shutdown-is_cancelled :
      (X : Type 0) (set : List X) (k : K) (w : W)
      → is_cancelled k w ≡ true
      → is_cancelled k (shutdown X set w) ≡ true
