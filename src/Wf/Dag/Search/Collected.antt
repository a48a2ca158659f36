-- ===== src/Wf/Dag/Search/Collected.antt =====
-- crates/altair-wf/src/dag.rs: the map of the dependencies that `detect_cycles` collects.
use mathlib.Core.Path.{subst}
use altair_rs.Prelude.{
  ◌≡◌, ◌≢◌, refl, ◌∙◌, ◌⊎◌, inl, inr, true, false, none, List, [], ◌∷◌, All, arith, Bool-cases,
}
use altair_rs.Prelude.Text.{String, str_eq, eq_iff}
use altair_rs.Prelude.StringMap.{contains, lookup, insert, lookup-insert}
use altair_rs.Wf.Dag.{DagNode}
use altair_rs.Wf.Dag.Names.{HasNoTwice, str_eq_refl}
use altair_rs.Wf.Dag.Complete.{names_of}
use altair_rs.Wf.Dag.Search.{Adjacency, deps_of, collect_adjacency}

pub All-contains :
    (P : String → Type 0) (xs : List String) (x : String) → All P xs → contains x xs ≡ true → P x
unfolding contains
All-contains P [] x h here = cc
All-contains P (y ∷ xs) x (h, hs) here = elim (Bool-cases (str_eq y x)) [
  | inl same ↦ subst P ((eq_iff y x).0 same) h
  | inr other ↦ All-contains P xs x hs (ground (arith, here, other))
]

deps_of-insert :
    (P : String → List String → Type 0) (j : String) (ds : List String) (adj : Adjacency)
    → P j ds
    → ((k : String) → P k (deps_of adj k))
    → (k : String) → P k (deps_of (insert j ds adj) k)
unfolding deps_of
deps_of-insert P j ds adj here others k = elim (Bool-cases (str_eq j k)) [
  | inl same ↦ rw (lookup-insert j k ds adj, same) (subst (λ x. P x ds) ((eq_iff j k).0 same) here)
  | inr other ↦ rw (lookup-insert j k ds adj, other) (others k)
]

module _ {I : Type 0} where
  -- What holds of the dependencies of all nodes holds of what is found for a name.
  collected :
      (P : String → List String → Type 0) (nodes : List (DagNode I)) (adj : Adjacency)
      → All (λ node. P node.name node.dependencies) nodes
      → ((k : String) → P k (deps_of adj k))
      → (k : String) → P k (deps_of (collect_adjacency nodes adj) k)
  unfolding collect_adjacency
  collected P [] adj h others k = others k
  collected P (node ∷ nodes) adj (h, hs) others k =
      collected P nodes (insert node.name node.dependencies adj) hs
        (deps_of-insert P node.name node.dependencies adj h others) k

  pub deps_of-collected :
      (P : String → List String → Type 0) (nodes : List (DagNode I))
      → All (λ node. P node.name node.dependencies) nodes
      → ((k : String) → P k [])
      → (k : String) → P k (deps_of (collect_adjacency nodes []) k)
  unfolding deps_of lookup
  deps_of-collected P nodes h empty k = collected P nodes [] h empty k

  found_before :
      (nodes : List (DagNode I)) (adj : Adjacency) (k : String)
      → contains k (names_of nodes) ≡ false
      → lookup k (collect_adjacency nodes adj) ≡ lookup k adj
  unfolding collect_adjacency contains
  found_before [] adj k h = refl
  found_before (node ∷ nodes) adj k h =
      let other : str_eq node.name k ≡ false = ground (arith, h) in
      found_before nodes (insert node.name node.dependencies adj) k (ground (arith, h))
      ∙ lookup-insert node.name k node.dependencies adj
      ∙ rw other

  -- A name of a node is found.
  pub known_is_found :
      (nodes : List (DagNode I)) (adj : Adjacency) (k : String)
      → (contains k (names_of nodes) ≡ true) ⊎ (lookup k adj ≢ none)
      → lookup k (collect_adjacency nodes adj) ≢ none
  unfolding collect_adjacency contains
  known_is_found [] adj k (inl h) = cc
  known_is_found [] adj k (inr h) = h
  known_is_found (node ∷ nodes) adj k h =
      known_is_found nodes (insert node.name node.dependencies adj) k
        (ground (arith, h, lookup-insert node.name k node.dependencies adj))

  pub own_dependencies :
      (nodes : List (DagNode I)) (adj : Adjacency)
      → HasNoTwice (names_of nodes)
      → All (λ node. deps_of (collect_adjacency nodes adj) node.name ≡ node.dependencies) nodes
  unfolding collect_adjacency deps_of
  own_dependencies [] adj h = tt
  own_dependencies (node ∷ nodes) adj (fresh, h) = (
    rw (
      found_before nodes (insert node.name node.dependencies adj) node.name fresh,
      lookup-insert node.name node.name node.dependencies adj,
      str_eq_refl node.name,
    ),
    own_dependencies nodes (insert node.name node.dependencies adj) h,
  )
