-- ===== src/Wf/Dag/Search/Cycles.antt =====
-- crates/altair-wf/src/dag.rs: the searches from all nodes together.
use altair_rs.Prelude.{
  suc, ◌≤◌, ◌≡◌, ◌≢◌, refl, sym, ap, ◌∙◌, ◌⊎◌, inl, inr, false, List, [], ◌∷◌, ◌==◌, length, All,
  arith, Bool-cases, Option-cases,
}
use altair_rs.Prelude.Text.{String, str_eq, eq_iff}
use altair_rs.Prelude.StringMap.{contains, lookup, insert}
use altair_rs.Wf.Error.{Result, ok}
use altair_rs.Wf.Dag.{DagNode}
use altair_rs.Wf.Dag.Names.{str_eq_refl}
use altair_rs.Wf.Dag.Search.{
  Adjacency, Colors, deps_of, color, unvisited, enough, dfs_iterative, search_from,
}
use altair_rs.Wf.Dag.Search.Invariant.{Inv, color-insert}
use altair_rs.Wf.Dag.Search.Rounds.{
  unvisited-insert_le, unvisited-insert, deps_of_found, work, Ends, FailsOn, dfs_loop-Ends,
}

unvisited-le-enough : (state : Colors) (adj : Adjacency) → unvisited state adj ≤ unvisited [] adj
unfolding unvisited color lookup
unvisited-le-enough state [] = omega arith
unvisited-le-enough state (entry ∷ adj) = ground (arith, unvisited-le-enough state adj)

module _ (adj : Adjacency) where
  Inv-start :
      (start : String) (state : Colors) (done : List String)
      → color start state ≡ 0
      → Inv adj [] state done
      → Inv adj ((start, 0) ∷ []) (insert start 1 state) done
  unfolding contains
  Inv-start start state done fresh h =
      let not_done : contains start done ≡ false = ground (arith, h.visited start, fresh) in
      record {
        visited = λ k. elim (Bool-cases (str_eq start k)) [
          | inl same ↦
              let gone : contains k done ≡ false =
                ap (λ x. contains x done) (sym ((eq_iff start k).0 same)) ∙ not_done in
              ground (arith, color-insert k start 1 state, same, gone)
          | inr other ↦ ground (arith, color-insert k start 1 state, other, h.visited k)
        ];
        visiting = λ k. ground (arith, color-insert k start 1 state, h.visiting k, eq_iff start k);
        small = λ k. ground (arith, color-insert k start 1 state, h.small k);
        distinct = (refl, tt);
        finished = h.finished;
        waiting = (tt, tt);
        path = tt;
      }

  work-start :
      (start : String) (state : Colors)
      → color start state ≡ 0
      → work adj ((start, 0) ∷ []) (insert start 1 state) ≤ suc (enough adj)
  unfolding enough
  work-start start state fresh = elim (Option-cases (lookup start adj)) [
    | inl missing ↦
        let own : deps_of adj start ≡ [] = unfold deps_of in rw missing in
        omega (
          arith,
          ap length own,
          unvisited-insert_le start 0 state adj,
          unvisited-le-enough state adj,
        )
    | inr (ds, found) ↦ omega (
      arith,
      ap length (deps_of_found adj start ds found),
      unvisited-insert start ds state adj fresh found,
      unvisited-le-enough state adj,
    )
  ]

  dfs_iterative-Ends :
      (start : String) (state : Colors) (done : List String)
      → color start state ≡ 0
      → Inv adj [] state done
      → Ends adj (insert start 1 state) (dfs_iterative start adj state)
        ⊎ FailsOn adj (dfs_iterative start adj state)
  unfolding dfs_iterative
  dfs_iterative-Ends start state done fresh h =
      dfs_loop-Ends adj (suc (enough adj)) ((start, 0) ∷ []) (insert start 1 state) done
        (Inv-start start state done fresh h) (work-start start state fresh)

  -- All the searches end, and every node is visited, or one fails.
  abbrev pub AllVisited : {I : Type 0} → List (DagNode I) → Colors → Result Colors → Type 0
  AllVisited nodes state answer =
      (state' : Colors) × (done : List String) × (answer ≡ ok state')
      × Inv adj [] state' done
      × ((k : String) → color k state ≢ 0 → color k state' ≢ 0)
      × All (λ node. color node.name state' ≢ 0) nodes

  pub search_from-AllVisited :
      {I : Type 0} (nodes : List (DagNode I)) (state : Colors) (done : List String)
      → Inv adj [] state done
      → AllVisited nodes state (search_from adj nodes state)
        ⊎ FailsOn adj (search_from adj nodes state)
  unfolding search_from
  search_from-AllVisited [] state done h = inl (state, done, refl, h, (λ k seen. seen), tt)
  search_from-AllVisited (node ∷ nodes) state done h =
      elim (Bool-cases (color node.name state == 0)) [
        | inr seen ↦ elim (search_from-AllVisited nodes state done h) [
          | inl (state', done', ends, h', kept, all) ↦
              inl (
                state',
                done',
                rw seen ends,
                h',
                kept,
                (kept node.name (ground (arith, seen)), all),
              )
          | inr (e, top, names, dep, fails, on_path, needed, why) ↦
              inr (e, top, names, dep, rw seen fails, on_path, needed, why)
        ]
        | inl fresh ↦ elim (dfs_iterative-Ends node.name state done (ground (arith, fresh)) h) [
          | inr (e, top, names, dep, fails, on_path, needed, why) ↦
              inr (e, top, names, dep, rw (fresh, fails), on_path, needed, why)
          | inl (state1, done1, ends1, h1, kept1) ↦
              elim (search_from-AllVisited nodes state1 done1 h1) [
                | inr (e, top, names, dep, fails, on_path, needed, why) ↦
                    inr (e, top, names, dep, rw (fresh, ends1) fails, on_path, needed, why)
                | inl (state', done', ends, h', kept, all) ↦
                    let first : color node.name (insert node.name 1 state) ≢ 0 =
                      ground
                        (arith, color-insert node.name node.name 1 state, str_eq_refl node.name) in
                    inl (
                      state',
                      done',
                      rw (fresh, ends1) ends,
                      h',
                      (λ k seen.
                          kept k
                            (kept1 k (ground (arith, color-insert k node.name 1 state, seen)))),
                      (kept node.name (kept1 node.name first), all),
                    )
              ]
        ]
      ]
