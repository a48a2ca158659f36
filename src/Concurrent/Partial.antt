-- ===== src/Concurrent/Partial.antt =====
-- crates/altair-concurrent/src/executor.rs: what `run_partial` answers.
use altair_rs.Prelude.{
  ℕ, zero, suc, ◌<◌, ◌≡◌, refl, ap, ◌⊎◌, inl, inr, Option, none, some, List, [], ◌∷◌, ◌++◌, length,
  length-append, arith,
}
use mathlib.Core.Path.{subst}
use altair_rs.Prelude.Text.{String}
use altair_rs.Prelude.StringMap.{insert}
use altair_rs.Prelude.Async.{Fut, Result, ok, err}
use altair_rs.Concurrent.Runtime.{Runtime}
use altair_rs.Concurrent.TaskMap.{BoxedTaskFn, TaskMap}
use altair_rs.Concurrent.Executor.{
  Error, Spawned, TaskOutcome, PartialExecutor, token_or_new, next_outcome, settle_partial,
  partial_loop, run_partial,
}
use altair_rs.Concurrent.Pick.{IsDistinct, pick-IsDistinct}
use altair_rs.Concurrent.Accounts.{Accounts, IsComplete, all_waiting, one_settled, none_waiting}
use altair_rs.Concurrent.Turns.{Breaks, next_outcome-Turn}

pub length-picked :
    {X : Type 0} (before : List X) (x : X) (after : List X)
    → length (before ++ (x ∷ after)) ≡ suc (length (before ++ after))
length-picked before x after =
    omega (arith, length-append before (x ∷ after), length-append before after)

module _ {W K J B T : Type 0} (rt : Runtime W K J) where
  -- An outcome is what the task gives with the token in some state.
  abbrev pub Gives : K → BoxedTaskFn W K B T → Result T B → Type 0
  Gives token task outcome = (w : W) × (outcome ≡ (task token w).0)

  -- The results of all tasks, or the failure of the run.
  abbrev pub PartialAnswer :
      K → Option ℕ → TaskMap W K B T → Result (List (String × Result T B)) (Error B J) × W → Type 0
  PartialAnswer token timeout tasks answer =
      ((results : List (String × Result T B)) × (answer.0 ≡ ok results)
        × IsComplete (Gives token) tasks results)
      ⊎ ((e : Error B J) × (answer.0 ≡ err e) × Breaks rt token timeout e answer.1)

  settle_over :
      (continue : List (Spawned W K B T)
        → List (String × Result T B)
        → Fut W (Result (List (String × Result T B)) (Error B J)))
      (results : List (String × Result T B))
      (next : Result (Option (TaskOutcome B T)) (Error B J) × List (Spawned W K B T)) (w : W)
      → next.0 ≡ ok none
      → settle_partial rt continue results next w ≡ (ok results, w)
  unfolding settle_partial
  settle_over continue results (ok none, set) w h = refl
  settle_over continue results (ok (some outcome), set) w h = cc
  settle_over continue results (err e, set) w h = cc

  settle_broken :
      (continue : List (Spawned W K B T)
        → List (String × Result T B)
        → Fut W (Result (List (String × Result T B)) (Error B J)))
      (results : List (String × Result T B))
      (next : Result (Option (TaskOutcome B T)) (Error B J) × List (Spawned W K B T)) (w : W)
      (e : Error B J)
      → next.0 ≡ err e
      → settle_partial rt continue results next w ≡ (err e, w)
  unfolding settle_partial
  settle_broken continue results (ok none, set) w e h = cc
  settle_broken continue results (ok (some outcome), set) w e h = cc
  settle_broken continue results (err e', set) w e h =
      let same : e' ≡ e = cc in ap (λ x. (err x, w)) same

  partial_loop_lem :
      (token : K) (timeout : Option ℕ) (tasks : TaskMap W K B T) (rounds : ℕ)
      (set : List (Spawned W K B T)) (results : List (String × Result T B)) (w : W)
      → length set < rounds
      → IsDistinct set
      → Accounts (Gives token) tasks set results
      → PartialAnswer token timeout tasks (partial_loop rt token timeout rounds set results w)
  unfolding partial_loop settle_partial
  partial_loop_lem token timeout tasks zero set results w enough distinct h = absurd (omega arith)
  partial_loop_lem token timeout tasks (suc rounds) set results w enough distinct h =
      elim (next_outcome-Turn rt token timeout set w) [
        | inl (drained, over) ↦
            rw
              (settle_over (partial_loop rt token timeout rounds) results
                (next_outcome rt token timeout set w).0 (next_outcome rt token timeout set w).1
                over)
              (inl (
                results,
                refl,
                none_waiting (Gives token) tasks results
                    (subst (λ l. Accounts (Gives token) tasks l results) drained h),
              ))
        | inr (inl (before, after, x, w', split, same)) ↦
            let distinct' = subst IsDistinct split distinct in
            let shorter = length-picked before x after in
            rw same (
              partial_loop_lem token timeout tasks rounds (before ++ after)
                (insert x.0 (x.1 token w').0 results) (next_outcome rt token timeout set w).1
                (omega (arith, enough, ap length split, shorter))
                (pick-IsDistinct before x after distinct')
                (one_settled (Gives token) tasks before x after results (x.1 token w').0 distinct'
                  (subst (λ l. Accounts (Gives token) tasks l results) split h) (w', refl)))
        | inr (inr (e, fails, breaks)) ↦
            rw
              (settle_broken (partial_loop rt token timeout rounds) results
                (next_outcome rt token timeout set w).0 (next_outcome rt token timeout set w).1 e
                fails)
              (inr (e, refl, breaks))
      ]

  -- On a task map with distinct names, `run_partial` answers the outcome of every task under its name
  -- and nothing else, or it fails by the timeout, where there is one, or by a task that panics or is aborted.
  pub run_partial_lem :
      (executor : PartialExecutor W K B T) (w : W)
      → IsDistinct executor.tasks
      → PartialAnswer
          (token_or_new rt executor.cancellation w).0
          executor.timeout
          executor.tasks
          (run_partial rt executor w)
  unfolding run_partial
  run_partial_lem executor w distinct =
      let (token, w') = token_or_new rt executor.cancellation w in
      partial_loop_lem token executor.timeout executor.tasks (suc (length executor.tasks))
        executor.tasks [] w' (omega arith) distinct (all_waiting (Gives token) executor.tasks)
