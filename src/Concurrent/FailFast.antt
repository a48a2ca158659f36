-- ===== src/Concurrent/FailFast.antt =====
-- crates/altair-concurrent/src/executor.rs: what `run_fail_fast` answers.
use altair_rs.Prelude.{
  ℕ, zero, suc, ◌<◌, ◌≡◌, refl, ap, ◌⊎◌, inl, inr, Bool-cases, Option, none, some, Bool, true,
  false, ◌&&◌, List, is_empty, [], ◌∷◌, ◌++◌, length, arith,
}
use mathlib.Core.Path.{subst}
use altair_rs.Prelude.Text.{String}
use altair_rs.Prelude.StringMap.{insert, lookup}
use altair_rs.Prelude.Async.{Fut, Result, ok, err}
use altair_rs.Concurrent.Runtime.{Runtime}
use altair_rs.Concurrent.TaskMap.{BoxedTaskFn, TaskMap}
use altair_rs.Concurrent.Executor.{
  Error, task_failed, cancelled, Spawned, TaskOutcome, Executor, token_or_new, next_outcome,
  settle_fast, fail_fast_loop, run_fail_fast,
}
use altair_rs.Concurrent.Pick.{IsDistinct, pick-IsDistinct}
use altair_rs.Concurrent.Accounts.{
  Accounts, IsComplete, all_waiting, one_settled, none_waiting, waiting_is_known,
}
use altair_rs.Concurrent.Partial.{length-picked}
use altair_rs.Concurrent.Turns.{Breaks, next_outcome-Turn}

module _ {W K J B T : Type 0} (rt : Runtime W K J) where
  -- A task succeeds with a value in some state.
  abbrev pub Succeeds : K → BoxedTaskFn W K B T → T → Type 0
  Succeeds token task v = (w : W) × ((task token w).0 ≡ ok v)

  -- The error of a task of that name.
  abbrev pub FailedWith : K → TaskMap W K B T → String → B → Type 0
  FailedWith token tasks name source =
      (task : BoxedTaskFn W K B T) × (lookup name tasks ≡ some task)
      × ((w : W) × ((task token w).0 ≡ err source))

  -- The values of all tasks; or the error of one; or, though all have values, the cancelled token; or
  -- the failure of the run.
  abbrev pub FastAnswer :
      K → Option ℕ → TaskMap W K B T → Result (List (String × T)) (Error B J) × W → Type 0
  FastAnswer token timeout tasks answer =
      ((results : List (String × T)) × (answer.0 ≡ ok results)
        × IsComplete (Succeeds token) tasks results)
      ⊎ (((name : String) × (source : B) × (answer.0 ≡ err (task_failed name source))
            × (rt.is_cancelled token answer.1 ≡ true)
            × FailedWith token tasks name source)
          ⊎ (((results : List (String × T)) × (answer.0 ≡ err cancelled)
                × (rt.is_cancelled token answer.1 ≡ true)
                × IsComplete (Succeeds token) tasks results)
              ⊎ ((e : Error B J) × (answer.0 ≡ err e) × Breaks rt token timeout e answer.1)))

  settle_over :
      (token : K)
      (continue : List (Spawned W K B T)
        → List (String × T)
        → Fut W (Result (List (String × T)) (Error B J)))
      (results : List (String × T))
      (next : Result (Option (TaskOutcome B T)) (Error B J) × List (Spawned W K B T)) (w : W)
      → next.0 ≡ ok none
      → settle_fast rt token continue results next w ≡ (ok results, w)
  unfolding settle_fast
  settle_over token continue results (ok none, set) w h = refl
  settle_over token continue results (ok (some outcome), set) w h = cc
  settle_over token continue results (err e, set) w h = cc

  settle_broken :
      (token : K)
      (continue : List (Spawned W K B T)
        → List (String × T)
        → Fut W (Result (List (String × T)) (Error B J)))
      (results : List (String × T))
      (next : Result (Option (TaskOutcome B T)) (Error B J) × List (Spawned W K B T)) (w : W)
      (e : Error B J)
      → next.0 ≡ err e
      → settle_fast rt token continue results next w ≡ (err e, w)
  unfolding settle_fast
  settle_broken token continue results (ok none, set) w e h = cc
  settle_broken token continue results (ok (some outcome), set) w e h = cc
  settle_broken token continue results (err e', set) w e h =
      let same : e' ≡ e = cc in ap (λ x. (err x, w)) same

  -- A turn that joins a task, which stands between others in the set.
  settle_joined :
      (token : K) (timeout : Option ℕ) (tasks before : TaskMap W K B T) (x : Spawned W K B T)
      (after : TaskMap W K B T)
      (continue : List (Spawned W K B T)
        → List (String × T)
        → Fut W (Result (List (String × T)) (Error B J)))
      (results : List (String × T)) (outcome : Result T B) (at w : W)
      → IsDistinct (before ++ (x ∷ after))
      → Accounts (Succeeds token) tasks (before ++ (x ∷ after)) results
      → (x.1 token at).0 ≡ outcome
      → ((v : T)
          → Accounts (Succeeds token) tasks (before ++ after) (insert x.0 v results)
          → FastAnswer token timeout tasks (continue (before ++ after) (insert x.0 v results) w))
      → FastAnswer token timeout tasks
          (settle_fast rt token continue results (ok (some (x.0, outcome)), before ++ after) w)
  unfolding settle_fast
  settle_joined token timeout tasks before x after continue results (err e) at w distinct h gives
        next =
      inr (
        inl (
          x.0,
          e,
          refl,
          rt.shutdown-is_cancelled (Spawned W K B T) (before ++ after) token (rt.cancel token w)
              (rt.cancel_lem token w),
          (
            x.1,
            waiting_is_known (Succeeds token) tasks before x after results distinct h,
            (at, gives),
          ),
        ))
  settle_joined token timeout tasks before x after continue results (ok v) at w distinct h gives
        next =
      let more =
        one_settled (Succeeds token) tasks before x after results v distinct h (at, gives) in
      elim (Bool-cases (rt.is_cancelled token w && is_empty (before ++ after))) [
        | inl stopped ↦
            let (hit, last) = both (rt.is_cancelled token w) (before ++ after) stopped in
            rw stopped (
              inr (
                inr (
                  inl (
                    insert x.0 v results,
                    refl,
                    hit,
                    none_waiting (Succeeds token) tasks (insert x.0 v results) (
                        subst (λ l. Accounts (Succeeds token) tasks l (insert x.0 v results)) last
                          more),
                  ))))
        | inr on ↦ rw on (next v more)
      ]
    where
      both :
          {A : Type 0} (b : Bool) (xs : List A) → (b && is_empty xs) ≡ true → (b ≡ true) × (xs ≡ [])
      both true [] h = (refl, refl)
      both true (y ∷ ys) h = cc
      both false xs h = cc

  fail_fast_loop_lem :
      (token : K) (timeout : Option ℕ) (tasks : TaskMap W K B T) (rounds : ℕ)
      (set : List (Spawned W K B T)) (results : List (String × T)) (w : W)
      → length set < rounds
      → IsDistinct set
      → Accounts (Succeeds token) tasks set results
      → FastAnswer token timeout tasks (fail_fast_loop rt token timeout rounds set results w)
  unfolding fail_fast_loop
  fail_fast_loop_lem token timeout tasks zero set results w enough distinct h = absurd (omega arith)
  fail_fast_loop_lem token timeout tasks (suc rounds) set results w enough distinct h =
      let step = next_outcome rt token timeout set w in
      elim (next_outcome-Turn rt token timeout set w) [
        | inl (drained, over) ↦
            rw
              (settle_over token (fail_fast_loop rt token timeout rounds) results step.0 step.1
                over)
              (inl (
                results,
                refl,
                none_waiting (Succeeds token) tasks results
                    (subst (λ l. Accounts (Succeeds token) tasks l results) drained h),
              ))
        | inr (inl (before, after, x, w', split, same)) ↦
            let distinct' = subst IsDistinct split distinct in
            let shorter = length-picked before x after in
            rw same (
              settle_joined token timeout tasks before x after
                (fail_fast_loop rt token timeout rounds) results (x.1 token w').0 w' step.1
                distinct' (subst (λ l. Accounts (Succeeds token) tasks l results) split h) refl
                (λ v more.
                  fail_fast_loop_lem token timeout tasks rounds (before ++ after)
                    (insert x.0 v results) step.1 (omega (arith, enough, ap length split, shorter))
                    (pick-IsDistinct before x after distinct') more))
        | inr (inr (e, fails, breaks)) ↦
            rw
              (settle_broken token (fail_fast_loop rt token timeout rounds) results step.0 step.1 e
                fails)
              (inr (inr (inr (e, refl, breaks))))
      ]

  -- On a task map with distinct names, `run_fail_fast` answers the value of every task under its name
  -- and nothing else; or the name and the error of a task that fails, with the token cancelled; or
  -- `Cancelled`, with the token cancelled, though every task has a value; or it fails by the timeout,
  -- where there is one, or by a task that panics or is aborted.
  pub run_fail_fast_lem :
      (executor : Executor W K B T) (w : W)
      → IsDistinct executor.tasks
      → FastAnswer
          (token_or_new rt executor.cancellation w).0
          executor.timeout
          executor.tasks
          (run_fail_fast rt executor w)
  unfolding run_fail_fast
  run_fail_fast_lem executor w distinct =
      let (token, w') = token_or_new rt executor.cancellation w in
      fail_fast_loop_lem token executor.timeout executor.tasks (suc (length executor.tasks))
        executor.tasks [] w' (omega arith) distinct (all_waiting (Succeeds token) executor.tasks)
