-- ===== src/Wf/Tests.antt =====
-- Concrete tasks, activities and a runner, shared by the runs of the patterns.
mod Patterns
mod Params
mod Template
mod Chunk
mod Dag
mod RunDag
mod Datasync
mod Function
use mathlib.Core.List.{reverse}
use mathlib.Core.List.Permᴰ as PermD
use altair_rs.Prelude.{ℕ, ◌+◌, ◌%◌, ◌≡◌, refl, Bool, none, List, [], ◌∷◌, if◌then◌else◌, ◌==◌, ltb}
use altair_rs.Wf.Error.{invalid_input, activity, Result, ok, err}
use altair_rs.Wf.Task.{TaskInput, TaskOutput, no_error}
use altair_rs.Wf.Futures.{Fut, Futures, Runs}

-- A task is a number below 100; its output fails if it is odd; task 8 is an activity that errors.
instance abbrev pub small_number : TaskInput ℕ
small_number = record {
  validate = λ n. if ltb n 100 then ok tt else err (invalid_input "too large");
}

instance abbrev pub even_number : TaskOutput ℕ
even_number = record { is_success = λ n. n % 2 == 0; error = no_error }

abbrev pub answer : ℕ → Result ℕ
answer n = if n == 8 then err (activity "count" "timeout") else ok n

-- The outside state counts the calls.
abbrev pub count_call : ℕ → Fut ℕ (Result ℕ)
count_call n w = (answer n, w + 1)

pub count_call_pure : (n w : ℕ) → (count_call n w).0 ≡ answer n
count_call_pure n w = refl

module _ {W A : Type 0} where
  abbrev pub in_turn : List (Fut W A) → Fut W (List A)
  in_turn [] w = ([], w)
  in_turn (f ∷ fs) w = let (r, w') = f w in let (rs, w'') = in_turn fs w' in (r ∷ rs, w'')

  pub in_turn-Runs : (fs : List (Fut W A)) (w : W) → Runs fs (in_turn fs w).0
  in_turn-Runs [] w = tt
  in_turn-Runs (f ∷ fs) w = ((w, refl), in_turn-Runs fs (f w).1)

-- A runner that completes a bounded fan-out last task first.
abbrev pub backwards : {W : Type 0} → Futures W
backwards = record {
  join_all = λ A fs. in_turn fs;
  buffer_unordered = λ A n fs w. let (rs, w') = in_turn fs w in (reverse rs, w');
  join_all_in_order = λ A fs w. in_turn-Runs fs w;
  buffer_unordered_complete =
      λ A n fs w h. ((in_turn fs w).0, in_turn-Runs fs w, PermD.reverse (in_turn fs w).0);
}
