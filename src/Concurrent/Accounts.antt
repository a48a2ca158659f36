-- ===== src/Concurrent/Accounts.antt =====
-- What is known of each task while the outcomes of crates/altair-concurrent/src/executor.rs come in.
use mathlib.Core.Path.{subst}
use altair_rs.Prelude.{
  ◌≡◌, refl, sym, ap, ◌∙◌, ◌⊎◌, inl, inr, Option, none, some, List, [], ◌∷◌, ◌++◌, Bool-cases,
}
use altair_rs.Prelude.Text.{String, str_eq, eq_iff}
use altair_rs.Prelude.StringMap.{lookup, insert, lookup-insert}
use altair_rs.Concurrent.Pick.{IsDistinct, lookup-pick, lookup-picked}

-- `X` is the type of tasks, `V` that of the results that are kept, and `Holds` says which results a
-- task may leave.
module _ {X V : Type 0} (Holds : X → V → Type 0) where
  -- A task is waited for, or has left a result.
  abbrev Account : Option X → Option X → Option V → Type 0
  Account none left kept = (left ≡ none) × (kept ≡ none)
  Account (some task) left kept =
      ((left ≡ some task) × (kept ≡ none))
      ⊎ ((left ≡ none) × ((v : V) × (kept ≡ some v) × Holds task v))

  abbrev pub Accounts : List (String × X) → List (String × X) → List (String × V) → Type 0
  Accounts tasks left results =
      (k : String) → Account (lookup k tasks) (lookup k left) (lookup k results)

  -- Each task has left a result, and no other name has one.
  abbrev pub Finished : Option X → Option V → Type 0
  Finished none kept = kept ≡ none
  Finished (some task) kept = (v : V) × (kept ≡ some v) × Holds task v

  abbrev pub IsComplete : List (String × X) → List (String × V) → Type 0
  IsComplete tasks results = (k : String) → Finished (lookup k tasks) (lookup k results)

  pub all_waiting : (tasks : List (String × X)) → Accounts tasks tasks []
  unfolding lookup
  all_waiting tasks k = start (lookup k tasks)
    where
      start : (o : Option X) → Account o o none
      start none = (refl, refl)
      start (some task) = inl (refl, refl)

  pub none_waiting :
      (tasks : List (String × X)) (results : List (String × V))
      → Accounts tasks [] results
      → IsComplete tasks results
  unfolding lookup
  none_waiting tasks results h k = ends (lookup k tasks) (lookup k results) (h k)
    where
      ends : (o : Option X) (kept : Option V) → Account o none kept → Finished o kept
      ends none kept h = h.1
      ends (some task) kept (inl (waits, _)) = cc
      ends (some task) kept (inr (_, h)) = h

  settled :
      (o : Option X) (task : X) (kept : Option V) (v : V)
      → Account o (some task) kept
      → Holds task v
      → Account o none (some v)
  settled none task kept v (h, _) holds = cc
  settled (some t) task kept v (inl (h, _)) holds =
      let same : task ≡ t = cc in inr (refl, (v, refl, subst (λ x. Holds x v) same holds))
  settled (some t) task kept v (inr (h, _)) holds = cc

  pub one_settled :
      (tasks before : List (String × X)) (x : String × X) (after : List (String × X))
      (results : List (String × V)) (v : V)
      → IsDistinct (before ++ (x ∷ after))
      → Accounts tasks (before ++ (x ∷ after)) results
      → Holds x.1 v
      → Accounts tasks (before ++ after) (insert x.0 v results)
  one_settled tasks before x after results v distinct h holds k =
      let picked = lookup-pick before x after k distinct in
      let kept = lookup-insert x.0 k v results in
      elim (Bool-cases (str_eq x.0 k)) [
        | inl same ↦
            let gone : lookup k (before ++ after) ≡ none =
              ap (λ j. lookup j (before ++ after)) (sym ((eq_iff x.0 k).0 same))
              ∙ lookup-picked before x after distinct in
            let here : lookup k (before ++ (x ∷ after)) ≡ some x.1 = picked ∙ rw same in
            let now : lookup k (insert x.0 v results) ≡ some v = kept ∙ rw same in
            rw (gone, now)
              (settled (lookup k tasks) x.1 (lookup k results) v (rw here at (h k)) holds)
        | inr other ↦
            let here : lookup k (before ++ (x ∷ after)) ≡ lookup k (before ++ after) =
              picked ∙ rw other in
            let now : lookup k (insert x.0 v results) ≡ lookup k results = kept ∙ rw other in
            rw (← here, now) (h k)
      ]

  -- A task that is waited for is one of the tasks.
  pub waiting_is_known :
      (tasks before : List (String × X)) (x : String × X) (after : List (String × X))
      (results : List (String × V))
      → IsDistinct (before ++ (x ∷ after))
      → Accounts tasks (before ++ (x ∷ after)) results
      → lookup x.0 tasks ≡ some x.1
  waiting_is_known tasks before x after results distinct h =
      let here : lookup x.0 (before ++ (x ∷ after)) ≡ some x.1 =
        lookup-pick before x after x.0 distinct ∙ rw ((eq_iff x.0 x.0).1 refl) in
      waits (lookup x.0 tasks) (lookup x.0 results) (rw here at (h x.0))
    where
      waits : (o : Option X) (kept : Option V) → Account o (some x.1) kept → o ≡ some x.1
      waits none kept (h, _) = cc
      waits (some task) kept (inl (h, _)) = sym h
      waits (some task) kept (inr (h, _)) = cc
