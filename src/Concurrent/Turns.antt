-- ===== src/Concurrent/Turns.antt =====
-- What one turn of the loops of crates/altair-concurrent/src/executor.rs answers.
use altair_rs.Prelude.{ℕ, ◌≡◌, refl, ◌⊎◌, inl, inr, true, Option, none, some, List, [], ◌∷◌, ◌++◌}
use altair_rs.Prelude.Async.{Result, ok, err}
use altair_rs.Concurrent.Runtime.{Runtime, Joined, drained, joined, Joins, JoinsInTime}
use altair_rs.Concurrent.Executor.{
  Error, timed_out, join, Spawned, TaskOutcome, spawn, outcome_of, in_time, next_outcome,
}

module _ {W K J B : Type 0} (rt : Runtime W K J) where
  -- A failure of the run itself: the timeout, after which the token is cancelled, or a task that
  -- panics or is aborted.
  abbrev pub Breaks : K → Option ℕ → Error B J → W → Type 0
  Breaks token timeout e w =
      (((d : ℕ) × (timeout ≡ some d)) × (e ≡ timed_out) × (rt.is_cancelled token w ≡ true))
      ⊎ ((j : J) × (e ≡ join j))

module _ {W K J B T : Type 0} (rt : Runtime W K J) where
  -- The three ways in which `next_outcome` answers.
  abbrev pub Turn :
      K
      → Option ℕ
      → List (Spawned W K B T)
      → (Result (Option (TaskOutcome B T)) (Error B J) × List (Spawned W K B T)) × W
      → Type 0
  Turn token timeout set answer =
      ((set ≡ []) × (answer.0.0 ≡ ok none))
      ⊎ (((before after : List (Spawned W K B T)) × (x : Spawned W K B T) × (w' : W) × (set
              ≡ before ++ (x ∷ after))
            × (answer.0 ≡ (ok (some (x.0, (x.1 token w').0)), before ++ after)))
          ⊎ ((e : Error B J) × (answer.0.0 ≡ err e) × Breaks rt token timeout e answer.1))

  outcome_of_lem :
      (token : K) (timeout : Option ℕ) (set : List (Spawned W K B T))
      (raw : Joined (Spawned W K B T) (TaskOutcome B T) J) (w : W)
      → Joins (spawn token) set raw
      → Turn token timeout set (outcome_of rt set raw, w)
  unfolding outcome_of
  outcome_of_lem token timeout set drained w h = inl (h, refl)
  outcome_of_lem token timeout set (joined (ok a) rest) w
        (before, after, x, split, left, (w', same)) =
      inr (inl (before, after, x, w', split, λ i. (ok (some (same i)), left i)))
  outcome_of_lem token timeout set (joined (err e) rest) w h =
      inr (inr (join e, refl, inr (e, refl)))

  in_time_lem :
      (token : K) (d : ℕ) (set : List (Spawned W K B T))
      (raw : Option (Joined (Spawned W K B T) (TaskOutcome B T) J)) (w : W)
      → JoinsInTime (spawn token) set raw
      → Turn token (some d) set (in_time rt token set raw w)
  unfolding in_time
  in_time_lem token d set none w h = inr (
      inr (
        timed_out,
        refl,
        inl (
          (d, refl),
          refl,
          rt.shutdown-is_cancelled (Spawned W K B T) set token (rt.cancel token w)
              (rt.cancel_lem token w),
        ),
      ))
  in_time_lem token d set (some raw) w h = outcome_of_lem token (some d) set raw w h

  pub next_outcome-Turn :
      (token : K) (timeout : Option ℕ) (set : List (Spawned W K B T)) (w : W)
      → Turn token timeout set (next_outcome rt token timeout set w)
  unfolding next_outcome
  next_outcome-Turn token none set w =
      let step = rt.join_next (Spawned W K B T) (TaskOutcome B T) (spawn token) set w in
      outcome_of_lem token none set step.0 step.1
        (rt.join_next_lem (Spawned W K B T) (TaskOutcome B T) (spawn token) set w)
  next_outcome-Turn token (some d) set w =
      let step = rt.timeout (Spawned W K B T) (TaskOutcome B T) d (spawn token) set w in
      in_time_lem token d set step.0 step.1
        (rt.timeout_lem (Spawned W K B T) (TaskOutcome B T) d (spawn token) set w)
