-- ===== src/Wf/Dag/Acyclic.antt =====
-- crates/altair-wf/src/dag.rs: `detect_cycles` on nodes with distinct names and known dependencies.
use mathlib.Core.Path.{subst}
use altair_rs.Prelude.{
  ℕ, ◌<◌, ◌≤◌, ◌≡◌, ◌≢◌, refl, ap, ◌⊎◌, inl, inr, true, List, [], ◌∷◌, All, arith, Bool-cases,
}
use altair_rs.Prelude.Text.{String, str_eq, eq_iff}
use altair_rs.Prelude.StringMap.{contains, lookup}
use altair_rs.Wf.Error.{Error, Result, ok, err}
use altair_rs.Wf.Dag.{DagNode}
use altair_rs.Wf.Dag.Names.{HasNoTwice}
use altair_rs.Wf.Dag.Complete.{names_of, IsRanked}
use altair_rs.Wf.Dag.Search.{
  Adjacency, Colors, deps_of, color, collect_adjacency, search_from, detect_cycles,
}
use altair_rs.Wf.Dag.Search.Order.{IsBefore, place, place-IsFinished}
use altair_rs.Wf.Dag.Search.Invariant.{Inv, IsPath}
use altair_rs.Wf.Dag.Search.Rounds.{FailsOn}
use altair_rs.Wf.Dag.Search.Collected.{
  All-contains, deps_of-collected, known_is_found, own_dependencies,
}
use altair_rs.Wf.Dag.Search.Cycles.{search_from-AllVisited}

-- Before any search.
Inv-none : (adj : Adjacency) → Inv adj [] [] []
unfolding color lookup contains
Inv-none adj = record {
  visited = λ k. refl;
  visiting = λ k. refl;
  small = λ k. omega arith;
  distinct = tt;
  finished = tt;
  waiting = tt;
  path = tt;
}

-- Along a path of dependencies ranks only grow.
IsPath-rank :
    (adj : Adjacency) (rank : String → ℕ)
    → ((k d : String) → contains d (deps_of adj k) ≡ true → rank d < rank k)
    → (x : String) (names : List String) → IsPath adj (x ∷ names)
    → (d : String) → contains d (x ∷ names) ≡ true
    → rank x ≤ rank d
unfolding contains
IsPath-rank adj rank lower x [] path d here =
    let e : x ≡ d = (eq_iff x d).0 (ground (arith, here)) in omega (arith, ap rank e)
IsPath-rank adj rank lower x (y ∷ names) path d here = elim (Bool-cases (str_eq x d)) [
  | inl same ↦ omega (arith, ap rank ((eq_iff x d).0 same))
  | inr other ↦ omega (
    arith,
    lower y x path.0,
    IsPath-rank adj rank lower y names path.1 d (ground (arith, here, other)),
  )
]

visited_is_finished :
    (adj : Adjacency) (state : Colors) (done : List String) (k : String)
    → Inv adj [] state done
    → color k state ≢ 0
    → contains k done ≡ true
unfolding contains
visited_is_finished adj state done k h seen =
    ground (arith, h.visited k, h.visiting k, h.small k, seen)

module _ {I : Type 0} where
  -- Every dependency is the name of a node.
  abbrev pub IsClosed : List (DagNode I) → List (DagNode I) → Type 0
  IsClosed all nodes =
      All (λ node. All (λ d. contains d (names_of all) ≡ true) node.dependencies) nodes

  -- Some rank decreases along the dependencies.
  abbrev pub IsAcyclic : List (DagNode I) → Type 0
  IsAcyclic nodes = (rank : String → ℕ) × IsRanked rank nodes nodes

  place_decreases :
      (adj : Adjacency) (all nodes : List (DagNode I)) (state : Colors) (done : List String)
      → Inv adj [] state done
      → IsClosed all nodes
      → All (λ node. deps_of adj node.name ≡ node.dependencies) nodes
      → All (λ node. color node.name state ≢ 0) nodes
      → IsRanked (place done) all nodes
  place_decreases adj all [] state done h closed own seen = tt
  place_decreases adj all (node ∷ nodes) state done h (closed, closed') (own, own') (seen, seen') =
      (
        both node.dependencies closed (
            subst (All (IsBefore done node.name)) own (
              place-IsFinished (deps_of adj) done node.name h.finished
                (visited_is_finished adj state done node.name h seen))),
        place_decreases adj all nodes state done h closed' own' seen',
      )
    where
      both :
          (ds : List String)
          → All (λ d. contains d (names_of all) ≡ true) ds
          → All (IsBefore done node.name) ds
          → All (λ d. (contains d (names_of all) ≡ true) × (place done d < place done node.name)) ds
      both [] h k = tt
      both (d ∷ ds) (h, hs) (k, ks) = ((h, k.1), both ds hs ks)

  -- A failing search contradicts any rank.
  no_rank :
      {A : Type 0} (nodes : List (DagNode I)) (answer : Result A)
      → IsClosed nodes nodes
      → FailsOn (collect_adjacency nodes []) answer
      → ¬ IsAcyclic nodes
  no_rank nodes answer closed (e, name, names, dep, fails, path, needed, why) (rank, ranked) =
      let adj = collect_adjacency nodes [] in
      let lower : (k d : String) → contains d (deps_of adj k) ≡ true → rank d < rank k = λ k d here.
        (All-contains (λ d. (contains d (names_of nodes) ≡ true) × (rank d < rank k))
          (deps_of adj k) d
          (deps_of-collected
            (λ k ds. All (λ d. (contains d (names_of nodes) ≡ true) × (rank d < rank k)) ds) nodes
            ranked (λ k. tt) k)
          here).1 in
      let known : contains dep (names_of nodes) ≡ true =
        All-contains (λ d. contains d (names_of nodes) ≡ true) (deps_of adj name) dep
          (deps_of-collected (λ k ds. All (λ d. contains d (names_of nodes) ≡ true) ds) nodes closed
            (λ k. tt) name)
          needed in
      elim why [
        | inl missing ↦ known_is_found nodes [] dep (inl known) missing
        | inr on_path ↦
            omega
              (arith, lower name dep needed, IsPath-rank adj rank lower name names path dep on_path)
      ]

  -- On nodes with distinct names whose dependencies are nodes, `detect_cycles` succeeds, and some rank
  -- decreases along the dependencies, or it answers an error, and no rank does.
  pub detect_cycles_decides :
      (nodes : List (DagNode I))
      → HasNoTwice (names_of nodes)
      → IsClosed nodes nodes
      → ((detect_cycles nodes ≡ ok tt) × IsAcyclic nodes)
        ⊎ ((e : Error) × (detect_cycles nodes ≡ err e) × ¬ IsAcyclic nodes)
  unfolding detect_cycles
  detect_cycles_decides nodes distinct closed =
      let adj = collect_adjacency nodes [] in
      elim (search_from-AllVisited adj nodes [] [] (Inv-none adj)) [
        | inl (state, done, ends, h, kept, seen) ↦ inl (
          rw ends,
          (
            place done,
            place_decreases adj nodes nodes state done h closed (own_dependencies nodes [] distinct)
                seen,
          ),
        )
        | inr (e, name, names, dep, fails, path, needed, why) ↦ inr (
          e,
          rw fails,
          no_rank nodes (search_from adj nodes []) closed
              (e, name, names, dep, fails, path, needed, why),
        )
      ]
