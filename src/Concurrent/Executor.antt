-- ===== src/Concurrent/Executor.antt =====
-- crates/altair-concurrent/src/executor.rs and error.rs. A boxed error is of a type `B`, an error of
-- a join of a type `J`; a `Duration` is its number of nanoseconds.
use altair_rs.Prelude.{
  ℕ, zero, suc, ◌&&◌, Option, none, some, List, [], if◌then◌else◌, is_empty, length,
}
use altair_rs.Prelude.Text.{String}
use altair_rs.Prelude.StringMap.{insert}
use altair_rs.Prelude.Async.{Fut, Result, ok, err}
use altair_rs.Concurrent.Runtime.{Runtime, Joined, drained, joined}
use altair_rs.Concurrent.TaskMap.{BoxedTaskFn, TaskMap}

pub data Error (B J : Type 0) : Type 0 where
  task_failed : (name : String) (source : B) → Error B J
  cancelled : Error B J
  timed_out : Error B J
  join : J → Error B J

pub record Executor (W K B T : Type 0) : Type 0 where
  pub tasks : TaskMap W K B T
  pub cancellation : Option K
  pub timeout : Option ℕ

pub record PartialExecutor (W K B T : Type 0) : Type 0 where
  pub tasks : TaskMap W K B T
  pub cancellation : Option K
  pub timeout : Option ℕ

module _ {W K B T : Type 0} where
  abbrev pub execute_concurrently : TaskMap W K B T → Executor W K B T
  execute_concurrently tasks = record { tasks = tasks; cancellation = none; timeout = none }

  abbrev pub with_cancellation : K → Executor W K B T → Executor W K B T
  with_cancellation token executor = record executor { cancellation = some token }

  abbrev pub with_timeout : ℕ → Executor W K B T → Executor W K B T
  with_timeout d executor = record executor { timeout = some d }

  abbrev pub with_partial_results : Executor W K B T → PartialExecutor W K B T
  with_partial_results executor = record {
    tasks = executor.tasks;
    cancellation = executor.cancellation;
    timeout = executor.timeout;
  }

  abbrev pub partial_with_cancellation : K → PartialExecutor W K B T → PartialExecutor W K B T
  partial_with_cancellation token executor = record executor { cancellation = some token }

  abbrev pub partial_with_timeout : ℕ → PartialExecutor W K B T → PartialExecutor W K B T
  partial_with_timeout d executor = record executor { timeout = some d }

-- A task of the set with its name, and a `TaskOutcome`.
abbrev pub Spawned : Type 0 → Type 0 → Type 0 → Type 0 → Type 0
Spawned W K B T = String × BoxedTaskFn W K B T

abbrev pub TaskOutcome : Type 0 → Type 0 → Type 0
TaskOutcome B T = String × Result T B

-- The future that `spawn_tasks` makes of a task.
abbrev pub spawn : {W K B T : Type 0} → K → Spawned W K B T → Fut W (TaskOutcome B T)
spawn token (name, task_fn) w = let (outcome, w') = task_fn token w in ((name, outcome), w')

-- `cancellation.unwrap_or_default()`.
abbrev pub token_or_new : {W K J : Type 0} → Runtime W K J → Option K → Fut W K
token_or_new rt none w = rt.new_token w
token_or_new rt (some token) w = (token, w)

module _ {W K J B T : Type 0} (rt : Runtime W K J) where
  -- The last match of `next_outcome`; with the answer goes the set as it is then.
  unfoldable pub outcome_of :
      List (Spawned W K B T)
      → Joined (Spawned W K B T) (TaskOutcome B T) J
      → Result (Option (TaskOutcome B T)) (Error B J) × List (Spawned W K B T)
  outcome_of set drained = (ok none, set)
  outcome_of set (joined (ok outcome) rest) = (ok (some outcome), rest)
  outcome_of set (joined (err e) rest) = (err (join e), rest)

  -- What follows on the wait with a timeout.
  unfoldable pub in_time :
      K
      → List (Spawned W K B T)
      → Option (Joined (Spawned W K B T) (TaskOutcome B T) J)
      → Fut W (Result (Option (TaskOutcome B T)) (Error B J) × List (Spawned W K B T))
  unfolding outcome_of
  in_time token set none w =
      ((err timed_out, []), rt.shutdown (Spawned W K B T) set (rt.cancel token w))
  in_time token set (some raw) w = (outcome_of set raw, w)

  unfoldable pub next_outcome :
      K
      → Option ℕ
      → List (Spawned W K B T)
      → Fut W (Result (Option (TaskOutcome B T)) (Error B J) × List (Spawned W K B T))
  unfolding in_time
  next_outcome token none set w =
      let (raw, w') = rt.join_next (Spawned W K B T) (TaskOutcome B T) (spawn token) set w in
      (outcome_of set raw, w')
  next_outcome token (some d) set w =
      let (raw, w') = rt.timeout (Spawned W K B T) (TaskOutcome B T) d (spawn token) set w in
      in_time token set raw w'

  -- The match on the outcome in `run_fail_fast`, and what follows it in the loop.
  unfoldable pub settle_fast :
      K
      → (List (Spawned W K B T)
          → List (String × T)
          → Fut W (Result (List (String × T)) (Error B J)))
      → List (String × T)
      → Result (Option (TaskOutcome B T)) (Error B J) × List (Spawned W K B T)
      → Fut W (Result (List (String × T)) (Error B J))
  unfolding insert
  settle_fast token continue results (err e, set) w = (err e, w)
  settle_fast token continue results (ok none, set) w = (ok results, w)
  settle_fast token continue results (ok (some (name, ok v)), set) w =
      if rt.is_cancelled token w && is_empty set
      then (err cancelled, w)
      else continue set (insert name v results) w
  settle_fast token continue results (ok (some (name, err e)), set) w =
      (err (task_failed name e), rt.shutdown (Spawned W K B T) set (rt.cancel token w))

  -- The loop of `run_fail_fast`, in at most `rounds` rounds.
  unfoldable pub fail_fast_loop :
      K
      → Option ℕ
      → ℕ
      → List (Spawned W K B T)
      → List (String × T)
      → Fut W (Result (List (String × T)) (Error B J))
  unfolding next_outcome settle_fast
  fail_fast_loop token timeout zero set results w = (ok results, w)
  fail_fast_loop token timeout (suc rounds) set results w =
      let (next, w') = next_outcome token timeout set w in
      settle_fast token (fail_fast_loop token timeout rounds) results next w'

  -- Each round but the last joins a task.
  unfoldable pub run_fail_fast : Executor W K B T → Fut W (Result (List (String × T)) (Error B J))
  unfolding fail_fast_loop
  run_fail_fast executor w =
      let (token, w') = token_or_new rt executor.cancellation w in
      fail_fast_loop token executor.timeout (suc (length executor.tasks)) executor.tasks [] w'

  -- The match on the outcome in `run_partial`.
  unfoldable pub settle_partial :
      (List (Spawned W K B T)
        → List (String × Result T B)
        → Fut W (Result (List (String × Result T B)) (Error B J)))
      → List (String × Result T B)
      → Result (Option (TaskOutcome B T)) (Error B J) × List (Spawned W K B T)
      → Fut W (Result (List (String × Result T B)) (Error B J))
  unfolding insert
  settle_partial continue results (err e, set) w = (err e, w)
  settle_partial continue results (ok none, set) w = (ok results, w)
  settle_partial continue results (ok (some (name, outcome)), set) w =
      continue set (insert name outcome results) w

  unfoldable pub partial_loop :
      K
      → Option ℕ
      → ℕ
      → List (Spawned W K B T)
      → List (String × Result T B)
      → Fut W (Result (List (String × Result T B)) (Error B J))
  unfolding next_outcome settle_partial
  partial_loop token timeout zero set results w = (ok results, w)
  partial_loop token timeout (suc rounds) set results w =
      let (next, w') = next_outcome token timeout set w in
      settle_partial (partial_loop token timeout rounds) results next w'

  unfoldable pub run_partial :
      PartialExecutor W K B T → Fut W (Result (List (String × Result T B)) (Error B J))
  unfolding partial_loop
  run_partial executor w =
      let (token, w') = token_or_new rt executor.cancellation w in
      partial_loop token executor.timeout (suc (length executor.tasks)) executor.tasks [] w'
