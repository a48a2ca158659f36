-- ===== src/Concurrent/Tests.antt =====
-- Runs of crates/altair-concurrent/src, and its theorems at a concrete input. The outside state says
-- whether the one token is cancelled; tasks are joined in their order.
use altair_rs.Prelude.{ℕ, ◌≡◌, refl, Bool, true, false, Option, none, some, List, [], ◌∷◌, ◌==◌}
use altair_rs.Prelude.Text.{String}
use altair_rs.Prelude.StringMap.{lookup, insert}
use altair_rs.Prelude.Async.{Fut, Result, ok, err}
use altair_rs.Concurrent.Runtime.{Runtime, Joined, drained, joined, Joins, JoinsInTime}
use altair_rs.Concurrent.TaskMap.{TaskMap}
use altair_rs.Concurrent.Executor.{
  task_failed, cancelled, timed_out, execute_concurrently, with_timeout, with_partial_results,
  run_fail_fast, run_partial,
}
use altair_rs.Concurrent.Pick.{IsDistinct}
use altair_rs.Concurrent.Partial.{PartialAnswer, run_partial_lem}
use altair_rs.Concurrent.FailFast.{FastAnswer, run_fail_fast_lem}

module _ {X A : Type 0} where
  abbrev first_of : (X → Fut Bool A) → List X → Fut Bool (Joined X A ℕ)
  first_of run [] w = (drained, w)
  first_of run (x ∷ xs) w = let (a, w') = run x w in (joined (ok a) xs, w')

  first_of-Joins :
      (run : X → Fut Bool A) (set : List X) (w : Bool) → Joins run set (first_of run set w).0
  first_of-Joins run [] w = refl
  first_of-Joins run (x ∷ xs) w = ([], xs, x, refl, refl, (w, refl))

  abbrev unless_elapsed : Bool → (X → Fut Bool A) → List X → Fut Bool (Option (Joined X A ℕ))
  unless_elapsed true run set w = (none, w)
  unless_elapsed false run set w = let (answer, w') = first_of run set w in (some answer, w')

  unless_elapsed-Joins :
      (b : Bool) (run : X → Fut Bool A) (set : List X) (w : Bool)
      → JoinsInTime run set (unless_elapsed b run set w).0
  unless_elapsed-Joins true run set w = tt
  unless_elapsed-Joins false run set w = first_of-Joins run set w

-- No time at all has always elapsed.
abbrev in_order : Runtime Bool (Unit {0}) ℕ
in_order = record {
  join_next = λ X A run set. first_of run set;
  join_next_lem = λ X A run set w. first_of-Joins run set w;
  timeout = λ X A d run set. unless_elapsed (d == 0) run set;
  timeout_lem = λ X A d run set w. unless_elapsed-Joins (d == 0) run set w;
  shutdown = λ X set w. w;
  new_token = λ w. (tt, w);
  cancel = λ k w. true;
  is_cancelled = λ k w. w;
  cancel_lem = λ k w. refl;
  shutdown-is_cancelled = λ X set k w h. h;
}

abbrev gives : Result ℕ String → Unit {0} → Fut Bool (Result ℕ String)
gives outcome token w = (outcome, w)

abbrev pair : TaskMap Bool (Unit {0}) String ℕ
pair = ("a", gives (ok 1)) ∷ ("b", gives (err "boom")) ∷ []

apart : IsDistinct pair
unfolding lookup
apart = (refl, (refl, tt))

all_results :
    run_partial in_order (with_partial_results (execute_concurrently pair)) false
    ≡ (ok (("a", ok 1) ∷ ("b", err "boom") ∷ []), false)
unfolding run_partial insert
all_results = refl

first_failure :
    run_fail_fast in_order (execute_concurrently pair) false ≡ (err (task_failed "b" "boom"), true)
unfolding run_fail_fast insert
first_failure = refl

no_time :
    run_fail_fast in_order (with_timeout 0 (execute_concurrently pair)) false
    ≡ (err timed_out, true)
unfolding run_fail_fast insert
no_time = refl

-- All tasks succeed, but the token is cancelled.
cancelled_at_the_end :
    run_fail_fast in_order (execute_concurrently (("a", gives (ok 1)) ∷ [])) true
    ≡ (err cancelled, true)
unfolding run_fail_fast insert
cancelled_at_the_end = refl

run_partial_lem_example :
    PartialAnswer in_order tt none pair
      (run_partial in_order (with_partial_results (execute_concurrently pair)) false)
run_partial_lem_example =
    run_partial_lem in_order (with_partial_results (execute_concurrently pair)) false apart

run_fail_fast_lem_example :
    FastAnswer in_order tt none pair (run_fail_fast in_order (execute_concurrently pair) false)
run_fail_fast_lem_example = run_fail_fast_lem in_order (execute_concurrently pair) false apart

abbrev one : TaskMap Bool (Unit {0}) String ℕ
one = ("b", gives (ok 1)) ∷ []
