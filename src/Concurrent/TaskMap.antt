-- ===== src/Concurrent/TaskMap.antt =====
-- crates/altair-concurrent/src/task_map.rs. A `BTreeMap` is the list of its entries in the order of
-- the keys.
use altair_rs.Prelude.{ℕ, Bool, List, [], ◌∷◌, if◌then◌else◌, length, is_empty}
use altair_rs.Prelude.Text.{String, str_eq, text_leb}
use altair_rs.Prelude.Async.{Fut, Result, ok, err}

-- `BTreeMap::insert`.
unfoldable pub btree_insert : {V : Type 0} → String → V → List (String × V) → List (String × V)
btree_insert key value [] = (key, value) ∷ []
btree_insert key value (entry ∷ rest) =
    let more = btree_insert key value rest in
    if str_eq entry.0 key
    then (key, value) ∷ rest
    else if text_leb key entry.0
    then (key, value) ∷ entry ∷ rest
    else entry ∷ more

-- A task: what it does with the token that it is given.
abbrev pub BoxedTaskFn : Type 0 → Type 0 → Type 0 → Type 0 → Type 0
BoxedTaskFn W K B T = K → Fut W (Result T B)

abbrev pub TaskMap : Type 0 → Type 0 → Type 0 → Type 0 → Type 0
TaskMap W K B T = List (String × BoxedTaskFn W K B T)

-- `fut.await.map_err(Into::into)`.
abbrev pub map_err : {T E B : Type 0} → (E → B) → Result T E → Result T B
map_err into (ok v) = ok v
map_err into (err e) = err (into e)

module _ {W K B T : Type 0} where
  abbrev pub new_map : TaskMap W K B T
  new_map = []

  unfoldable pub insert_task :
      {E : Type 0} → (E → B) → String → (K → Fut W (Result T E)) → TaskMap W K B T → TaskMap W K B T
  unfolding btree_insert
  insert_task into name task tasks =
      btree_insert name (λ token w. let (outcome, w') = task token w in (map_err into outcome, w'))
        tasks

  abbrev pub len : TaskMap W K B T → ℕ
  len tasks = length tasks

  abbrev pub is_empty_map : TaskMap W K B T → Bool
  is_empty_map tasks = is_empty tasks
