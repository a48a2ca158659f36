-- ===== src/Wf/Dag/Complete.antt =====
-- crates/altair-wf/src/dag.rs: the nodes that `topological_layers` reaches.
use mathlib.Core.Path.{subst}
use altair_rs.Prelude.{
  ℕ, zero, suc, ◌+◌, ◌<◌, ◌≤◌, ◌≡◌, refl, sym, ap, ◌∙◌, inl, inr, true, not, ◌||◌, Option, none,
  some, List, [], ◌∷◌, ◌++◌, map, ltb, length, length-map, get_elem?, is_empty, All, All-imp, arith,
  Bool-cases,
}
use altair_rs.Prelude.Text.{String, str_eq, eq_iff}
use altair_rs.Prelude.StringMap.{contains}
use altair_rs.Wf.Dag.{
  DagNode, DagInput, insert_name, all_done, ready_from, with_name, mark, layers_from,
  topological_layers,
}
use altair_rs.Wf.Dag.Layers.{names_at, contains-append, contains-mark, ready_from-ComesNext}
use altair_rs.Wf.Dag.Names.{IsSubset, HasNoTwice, all_of_them, also, contains-here}
use altair_rs.Wf.Dag.Rounds.{mark-grows}

all_done-intro :
    (deps done : List String) → All (λ d. contains d done ≡ true) deps → all_done deps done ≡ true
unfolding all_done
all_done-intro [] done h = refl
all_done-intro (d ∷ deps) done (here, h) = rw (here, all_done-intro deps done h)

reorder :
    (k : String) (done names rest marked : List String)
    → contains k marked ≡ contains k (names ++ done)
    → (contains k marked || contains k rest) ≡ true
    → (contains k done || contains k (names ++ rest)) ≡ true
reorder k done names rest marked same h =
    ground (arith, same, h, contains-append k names done, contains-append k names rest)

module _ {I : Type 0} where
  abbrev pub names_of : List (DagNode I) → List String
  names_of nodes = map (λ node. node.name) nodes

  -- The names of the nodes in the layers.
  abbrev pub names_in : List (DagNode I) → List (List ℕ) → List String
  names_in nodes [] = []
  names_in nodes (layer ∷ layers) = names_at nodes layer ++ names_in nodes layers

  -- Each dependency is a node, of a lower rank.
  abbrev pub IsRanked : (String → ℕ) → List (DagNode I) → List (DagNode I) → Type 0
  IsRanked rank all nodes =
      All
        (λ node.
          All (λ d. (contains d (names_of all) ≡ true) × (rank d < rank node.name))
            node.dependencies)
        nodes

  -- A node is done, or waits for a dependency.
  abbrev IsStuck : List String → DagNode I → Type 0
  IsStuck done node = (contains node.name done || not (all_done node.dependencies done)) ≡ true

  none_ready :
      (nodes : List (DagNode I)) (idx : ℕ) (done : List String)
      → is_empty (ready_from idx nodes done) ≡ true
      → All (IsStuck done) nodes
  unfolding ready_from
  none_ready [] idx done h = tt
  none_ready (node ∷ nodes) idx done h = elim (Bool-cases (contains node.name done)) [
    | inl seen ↦ (rw seen, none_ready nodes (suc idx) done (ground (arith, seen, h)))
    | inr fresh ↦ elim (Bool-cases (all_done node.dependencies done)) [
      | inl ready ↦ absurd (ground (arith, fresh, ready, h))
      | inr waiting ↦
          (rw (fresh, waiting), none_ready nodes (suc idx) done (ground (arith, fresh, waiting, h)))
    ]
  ]

  -- The nodes of the name `k` are done once all the names of lower rank are.
  done_next :
      (rank : String → ℕ) (all nodes : List (DagNode I)) (done : List String) (k : String)
      → IsRanked rank all nodes
      → All (IsStuck done) nodes
      → ((d : String) → contains d (names_of all) ≡ true → rank d < rank k → contains d done ≡ true)
      → contains k (names_of nodes) ≡ true
      → contains k done ≡ true
  unfolding contains
  done_next rank all [] done k r s lower h = cc
  done_next rank all (node ∷ nodes) done k (ranked, r) (stuck, s) lower h =
      elim (Bool-cases (str_eq node.name k)) [
        | inl same ↦
            let e : node.name ≡ k = (eq_iff node.name k).0 same in
            let ready : all_done node.dependencies done ≡ true =
              all_done-intro node.dependencies done (
                All-imp (λ d. (contains d (names_of all) ≡ true) × (rank d < rank node.name))
                  (λ d. contains d done ≡ true) node.dependencies
                  (λ d (known, less). lower d known (subst (λ x. rank d < rank x) e less))
                  ranked) in
            ap (λ x. contains x done) (sym e) ∙ ground (arith, stuck, ready)
        | inr other ↦ done_next rank all nodes done k r s lower (ground (arith, h, other))
      ]

  stuck_is_done :
      (rank : String → ℕ) (nodes : List (DagNode I)) (done : List String)
      → IsRanked rank nodes nodes
      → All (IsStuck done) nodes
      → (bound : ℕ) (k : String) → rank k < bound
      → contains k (names_of nodes) ≡ true
      → contains k done ≡ true
  stuck_is_done rank nodes done r s zero k less h = absurd (omega arith)
  stuck_is_done rank nodes done r s (suc bound) k less h =
      done_next rank nodes nodes done k r s
        (λ d known lower. stuck_is_done rank nodes done r s bound d (omega arith) known) h

  -- The marked names stay among the nodes' names, and none stands twice.
  abbrev IsProgress : List (DagNode I) → List String → Type 0
  IsProgress nodes done = HasNoTwice done × IsSubset done (names_of nodes)

  name_known :
      (nodes : List (DagNode I)) (idx : ℕ) (node : DagNode I)
      → get_elem? nodes idx ≡ some node
      → contains node.name (names_of nodes) ≡ true
  unfolding contains
  name_known [] idx node h = cc
  name_known (n ∷ nodes) zero node h =
      let e : n ≡ node = cc in rw e (contains-here node.name (names_of nodes))
  name_known (n ∷ nodes) (suc idx) node h = ground (arith, name_known nodes idx node h)

  with_name-IsProgress :
      (nodes : List (DagNode I)) (o : Option (DagNode I)) (done : List String)
      → ((node : DagNode I) → o ≡ some node → contains node.name (names_of nodes) ≡ true)
      → IsProgress nodes done
      → IsProgress nodes (with_name o done)
  unfolding with_name insert_name
  with_name-IsProgress nodes none done known h = h
  with_name-IsProgress nodes (some node) done known (h, sub) =
      elim (Bool-cases (contains node.name done)) [
        | inl seen ↦ rw seen (h, sub)
        | inr fresh ↦
            rw fresh
              ((fresh, h), λ j at. also node.name j done (names_of nodes) (known node refl) sub at)
      ]

  mark-IsProgress :
      (nodes : List (DagNode I)) (layer : List ℕ) (done : List String)
      → IsProgress nodes done
      → IsProgress nodes (mark nodes layer done)
  unfolding mark
  mark-IsProgress nodes [] done h = h
  mark-IsProgress nodes (idx ∷ layer) done h =
      mark-IsProgress nodes layer (with_name (get_elem? nodes idx) done) (
        with_name-IsProgress nodes (get_elem? nodes idx) done
          (λ node at. name_known nodes idx node at) h)

  length-names_of : (nodes : List (DagNode I)) → length (names_of nodes) ≡ length nodes
  length-names_of nodes = length-map (λ node. node.name) nodes

  all_in_layers :
      (rank : String → ℕ) (nodes : List (DagNode I))
      → IsRanked rank nodes nodes
      → (rounds : ℕ) (done : List String) (k : String) → IsProgress nodes done
      → length nodes ≤ rounds + length done
      → contains k (names_of nodes) ≡ true
      → (contains k done || contains k (names_in nodes (layers_from rounds nodes done))) ≡ true
  unfolding layers_from
  all_in_layers rank nodes r zero done k (h, sub) enough known =
      let found =
        all_of_them done (names_of nodes) h sub (omega (arith, length-names_of nodes)) k known in
      rw found
  all_in_layers rank nodes r (suc rounds) done k (h, sub) enough known =
      let layer = ready_from 0 nodes done in
      elim (Bool-cases (ltb (length done) (length nodes))) [
        | inr over ↦
            let found =
              all_of_them done (names_of nodes) h sub (ground (arith, length-names_of nodes)) k
                known in
            rw found
        | inl more ↦ elim (Bool-cases (is_empty layer)) [
          | inl stuck ↦
              let found =
                stuck_is_done rank nodes done r (none_ready nodes 0 done stuck) (suc (rank k)) k
                  (omega arith) known in
              rw found
          | inr some_ready ↦
              let grows : length done < length (mark nodes layer done) =
                mark-grows nodes layer done some_ready (
                  ready_from-ComesNext nodes nodes 0 done
                    (λ j. ap (λ m. get_elem? nodes m) (omega arith))) in
              let rest = layers_from rounds nodes (mark nodes layer done) in
              let later =
                all_in_layers rank nodes r rounds (mark nodes layer done) k
                  (mark-IsProgress nodes layer done (h, sub)) (omega arith) known in
              rw (more, some_ready)
                (reorder k done (names_at nodes layer) (names_in nodes rest) (mark nodes layer done)
                  (contains-mark nodes k layer done) later)
        ]
      ]

  -- Where each dependency is a node, and some rank decreases along the dependencies, so that there
  -- is no cycle, every node is in a layer of `topological_layers`.
  pub topological_layers_complete :
      (input : DagInput I) (rank : String → ℕ)
      → IsRanked rank input.nodes input.nodes
      → IsSubset (names_of input.nodes) (names_in input.nodes (topological_layers input))
  unfolding topological_layers contains
  topological_layers_complete input rank r k known =
      all_in_layers rank input.nodes r (length input.nodes) [] k (tt, λ j at. cc) (omega arith)
        known
