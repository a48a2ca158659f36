-- ===== src/Wf/Dag/Search/Rounds.antt =====
-- crates/altair-wf/src/dag.rs: each round of the search keeps the invariant and takes one off the
-- rounds that are left.
use altair_rs.Prelude.{
  ℕ, zero, suc, ◌+◌, ◌-◌, ◌<◌, ◌≤◌, ◌≡◌, ◌≢◌, refl, sym, ap, ◌∙◌, ◌⊎◌, inl, inr, true, false, none,
  some, List, [], ◌∷◌, ◌==◌, if◌then◌else◌, length, get_elem?, arith, Bool-cases, Option-cases,
}
use altair_rs.Prelude.Text.{String, ◌+++◌, str_eq, eq_iff}
use altair_rs.Prelude.StringMap.{contains, lookup, insert}
use altair_rs.Wf.Error.{Error, invalid_input, Result, ok, err}
use altair_rs.Wf.Dag.Search.{
  Adjacency, Colors, Frame, deps_of, color, descend, dfs_step, dfs_loop, unvisited,
}
use altair_rs.Wf.Dag.Search.Invariant.{
  Inv, IsPath, contains-some, color-insert, names_of_stack, Inv-pop, Inv-pass, Inv-push,
}

pub unvisited-insert_le :
    (j : String) (v : ℕ) (state : Colors) (adj : Adjacency)
    → unvisited (insert j (suc v) state) adj ≤ unvisited state adj
unfolding unvisited
unvisited-insert_le j v state [] = omega arith
unvisited-insert_le j v state (entry ∷ adj) =
    ground (arith, color-insert entry.0 j (suc v) state, unvisited-insert_le j v state adj)

pub unvisited-insert :
    (j : String) (ds : List String) (state : Colors) (adj : Adjacency)
    → color j state ≡ 0
    → lookup j adj ≡ some ds
    → unvisited (insert j 1 state) adj + suc (length ds) ≤ unvisited state adj
unfolding unvisited lookup
unvisited-insert j ds state [] h e = cc
unvisited-insert j ds state (entry ∷ adj) h e = elim (Bool-cases (str_eq entry.0 j)) [
  | inl same ↦
      let here : entry.0 ≡ j = (eq_iff entry.0 j).0 same in
      let before : color entry.0 state ≡ 0 = ap (λ x. color x state) here ∙ h in
      let after : color entry.0 (insert j 1 state) ≡ 1 =
        color-insert entry.0 j 1 state
        ∙ ap (λ b. if b then 1 else color entry.0 state) ((eq_iff j entry.0).1 (sym here)) in
      let value : entry.1 ≡ ds = ground (arith, same, e) in
      ground (arith, before, after, ap length value, unvisited-insert_le j 0 state adj)
  | inr other ↦
      let elsewhere : str_eq j entry.0 ≡ false =
        ground (arith, eq_iff entry.0 j, eq_iff j entry.0, other) in
      let later : lookup j adj ≡ some ds = ground (arith, other, e) in
      let kept : color entry.0 (insert j 1 state) ≡ color entry.0 state =
        color-insert entry.0 j 1 state ∙ ap (λ b. if b then 1 else color entry.0 state) elsewhere in
      ground (arith, kept, unvisited-insert j ds state adj h later)
]

lt_of_some : (xs : List String) (n : ℕ) (x : String) → get_elem? xs n ≡ some x → n < length xs
lt_of_some [] n x h = cc
lt_of_some (y ∷ xs) zero x h = omega arith
lt_of_some (y ∷ xs) (suc n) x h = omega (arith, lt_of_some xs n x h)

module _ (adj : Adjacency) where
  -- A round for each dependency that a frame has left, and one to pop it.
  abbrev pub frames_left : List Frame → ℕ
  frames_left [] = 0
  frames_left ((name, cursor) ∷ rest) = suc (length (deps_of adj name) - cursor) + frames_left rest

  abbrev pub work : List Frame → Colors → ℕ
  work stack state = unvisited state adj + frames_left stack

  pub deps_of_found :
      (dep : String) (ds : List String) → lookup dep adj ≡ some ds → deps_of adj dep ≡ ds
  deps_of_found dep ds found = unfold deps_of in rw found

  -- A round goes on, or finds a missing dependency or one that it is visiting.
  abbrev pub GoesOn : List Frame → Colors → List String → Result (List Frame × Colors) → Type 0
  GoesOn stack state done answer =
      (stack' : List Frame) × (state' : Colors) × (done' : List String) × (answer
        ≡ ok (stack', state'))
      × Inv adj stack' state' done'
      × ((k : String) → color k state ≢ 0 → color k state' ≢ 0)
      × (work stack' state' < work stack state)

  abbrev pub Fails : String → List Frame → Result (List Frame × Colors) → Type 0
  Fails name stack answer =
      (dep : String) × (e : Error) × (answer ≡ err e)
      × (contains dep (deps_of adj name) ≡ true)
      × ((lookup dep adj ≡ none) ⊎ (contains dep (names_of_stack stack) ≡ true))

  pushes :
      (name dep : String) (cursor : ℕ) (rest : List Frame) (state : Colors) (ds : List String)
      → lookup dep adj ≡ some ds
      → color dep state ≡ 0
      → cursor < length (deps_of adj name)
      → work ((dep, 0) ∷ (name, suc cursor) ∷ rest) (insert dep 1 state)
        < work ((name, cursor) ∷ rest) state
  pushes name dep cursor rest state ds found unseen more =
      let own : deps_of adj dep ≡ ds = deps_of_found dep ds found in
      omega (arith, ap length own, more, unvisited-insert dep ds state adj unseen found)

  pub round :
      (name : String) (cursor : ℕ) (rest : List Frame) (state : Colors) (done : List String)
      → Inv adj ((name, cursor) ∷ rest) state done
      → let answer = dfs_step adj (name, cursor) rest state (get_elem? (deps_of adj name) cursor) in
        GoesOn ((name, cursor) ∷ rest) state done answer ⊎ Fails name ((name, cursor) ∷ rest) answer
  unfolding dfs_step descend
  round name cursor rest state done h = elim (Option-cases (get_elem? (deps_of adj name) cursor)) [
    | inl ends ↦ inl (
      rest,
      insert name 2 state,
      name ∷ done,
      rw ends,
      Inv-pop adj name cursor rest state done ends h,
      (λ k seen. ground (arith, color-insert k name 2 state, seen)),
      omega (arith, unvisited-insert_le name 1 state adj),
    )
    | inr (dep, next) ↦ elim (Option-cases (lookup dep adj)) [
      | inl missing ↦ inr (
        dep,
        invalid_input ("node '" +++ dep +++ "' not found"),
        rw (next, missing),
        contains-some (deps_of adj name) cursor dep next,
        inl missing,
      )
      | inr (ds, found) ↦ elim (Bool-cases (color dep state == 1)) [
        | inl visiting ↦ inr (
          dep,
          invalid_input ("circular dependency detected involving node '" +++ dep +++ "'"),
          rw (next, found, visiting),
          contains-some (deps_of adj name) cursor dep next,
          inr (sym (h.visiting dep) ∙ visiting),
        )
        | inr not_visiting ↦ elim (Bool-cases (color dep state == 0)) [
          | inl unseen ↦ inl (
            (dep, 0) ∷ (name, suc cursor) ∷ rest,
            insert dep 1 state,
            done,
            rw (next, found, not_visiting, unseen),
            Inv-push adj name dep cursor rest state done next (ground (arith, unseen)) h,
            (λ k seen. ground (arith, color-insert k dep 1 state, seen)),
            pushes name dep cursor rest state ds found (ground (arith, unseen))
                (lt_of_some (deps_of adj name) cursor dep next),
          )
          | inr visited ↦ inl (
            (name, suc cursor) ∷ rest,
            state,
            done,
            rw (next, found, not_visiting, visited),
            Inv-pass adj name dep cursor rest state done next
                (ground (arith, h.small dep, h.visited dep, visited, not_visiting)) h,
            (λ k seen. seen),
            omega (arith, lt_of_some (deps_of adj name) cursor dep next),
          )
        ]
      ]
    ]
  ]

  -- The rest of a search: it ends with an empty stack, or fails in some round.
  abbrev pub Ends : Colors → Result Colors → Type 0
  Ends state answer =
      (state' : Colors) × (done' : List String) × (answer ≡ ok state')
      × Inv adj [] state' done'
      × ((k : String) → color k state ≢ 0 → color k state' ≢ 0)

  -- A failure of the search: on a path of dependencies, one of the first name is missing, or stands on
  -- the path.
  abbrev pub FailsOn : {A : Type 0} → Result A → Type 0
  FailsOn answer =
      (e : Error) × (name : String) × (names : List String) × (dep : String) × (answer ≡ err e)
      × IsPath adj (name ∷ names)
      × (contains dep (deps_of adj name) ≡ true)
      × ((lookup dep adj ≡ none) ⊎ (contains dep (name ∷ names) ≡ true))

  pub dfs_loop-Ends :
      (rounds : ℕ) (stack : List Frame) (state : Colors) (done : List String)
      → Inv adj stack state done
      → work stack state ≤ rounds
      → Ends state (dfs_loop adj rounds stack state) ⊎ FailsOn (dfs_loop adj rounds stack state)
  unfolding dfs_loop
  dfs_loop-Ends zero [] state done h enough = inl (state, done, refl, h, λ k seen. seen)
  dfs_loop-Ends zero ((name, cursor) ∷ rest) state done h enough = absurd (omega arith)
  dfs_loop-Ends (suc rounds) [] state done h enough = inl (state, done, refl, h, λ k seen. seen)
  dfs_loop-Ends (suc rounds) ((name, cursor) ∷ rest) state done h enough =
      elim (round name cursor rest state done h) [
        | inr (dep, e, fails, needed, why) ↦
            inr (e, name, names_of_stack rest, dep, rw fails, h.path, needed, why)
        | inl (stack', state', done', goes, h', kept, less) ↦
            elim (dfs_loop-Ends rounds stack' state' done' h' (omega arith)) [
              | inr (e, top, names, dep, fails, on_path, needed, why) ↦
                  inr (e, top, names, dep, rw goes fails, on_path, needed, why)
              | inl (last, done'', ends, h'', kept') ↦
                  inl (last, done'', rw goes ends, h'', λ k seen. kept' k (kept k seen))
            ]
      ]
