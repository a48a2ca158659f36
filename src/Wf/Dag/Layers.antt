-- ===== src/Wf/Dag/Layers.antt =====
-- crates/altair-wf/src/dag.rs: the order of the layers of `topological_layers`.
use altair_rs.Prelude.{
  ℕ, zero, suc, ◌+◌, ◌≡◌, refl, sym, ap, ◌∙◌, inl, inr, true, false, ◌||◌, Option, none, some, List,
  [], ◌∷◌, ◌++◌, ltb, if◌then◌else◌, length, get_elem?, is_empty, All, All-imp, arith, Bool-cases,
}
use altair_rs.Prelude.Text.{String, str_eq, eq_iff}
use altair_rs.Prelude.StringMap.{contains}
use altair_rs.Wf.Dag.{DagNode, insert_name, all_done, ready_from, with_name, mark, layers_from}

all_done_lem :
    (deps done : List String) → all_done deps done ≡ true → All (λ d. contains d done ≡ true) deps
unfolding all_done
all_done_lem [] done h = tt
all_done_lem (d ∷ deps) done h = elim (Bool-cases (contains d done)) [
  | inl here ↦ (here, all_done_lem deps done (ground arith))
  | inr missing ↦ absurd (ground arith)
]

pub contains-insert_name :
    (k j : String) (names : List String)
    → contains k (insert_name j names) ≡ (if str_eq j k then true else contains k names)
unfolding contains insert_name
contains-insert_name k j names = elim (Bool-cases (str_eq j k)) [
  | inl same ↦
      let e : j ≡ k = (eq_iff j k).0 same in
      elim (Bool-cases (contains j names)) [
        | inl here ↦ rw (here, same) (ap (λ x. contains x names) (sym e) ∙ here)
        | inr absent ↦ rw (absent, same)
      ]
  | inr other ↦ ground (arith, other)
]

pub contains-append :
    (k : String) (xs ys : List String) → contains k (xs ++ ys) ≡ (contains k xs || contains k ys)
unfolding contains
contains-append k [] ys = refl
contains-append k (x ∷ xs) ys = ground (arith, contains-append k xs ys)

module _ {I : Type 0} where
  abbrev pub named : Option (DagNode I) → List String → List String
  named none names = names
  named (some node) names = node.name ∷ names

  -- The names of the nodes at the indices of a layer.
  abbrev pub names_at : List (DagNode I) → List ℕ → List String
  names_at nodes [] = []
  names_at nodes (idx ∷ layer) = named (get_elem? nodes idx) (names_at nodes layer)

  -- A node that is not in `earlier`, and whose dependencies all are.
  abbrev pub ComesNext : List (DagNode I) → List String → ℕ → Type 0
  ComesNext nodes earlier idx =
      (node : DagNode I) × (get_elem? nodes idx ≡ some node)
      × (contains node.name earlier ≡ false)
      × All (λ d. contains d earlier ≡ true) node.dependencies

  -- Each layer contains nodes, and after the layers before it each of them comes next.
  abbrev pub InOrder : List (DagNode I) → List String → List (List ℕ) → Type 0
  InOrder nodes earlier [] = Unit {0}
  InOrder nodes earlier (layer ∷ layers) =
      (is_empty layer ≡ false)
      × All (ComesNext nodes earlier) layer
      × InOrder nodes (names_at nodes layer ++ earlier) layers

  pub ready_from-ComesNext :
      (all nodes : List (DagNode I)) (idx : ℕ) (done : List String)
      → ((j : ℕ) → get_elem? nodes j ≡ get_elem? all (idx + j))
      → All (ComesNext all done) (ready_from idx nodes done)
  unfolding ready_from
  ready_from-ComesNext all [] idx done h = tt
  ready_from-ComesNext all (node ∷ nodes) idx done h =
      let later =
        ready_from-ComesNext all nodes (suc idx) done
          (λ j. h (suc j) ∙ ap (λ m. get_elem? all m) (omega arith)) in
      elim (Bool-cases (contains node.name done)) [
        | inl seen ↦ rw seen later
        | inr fresh ↦ elim (Bool-cases (all_done node.dependencies done)) [
          | inl ready ↦
              rw (fresh, ready)
                (
                  (
                    node,
                    sym (h 0 ∙ ap (λ m. get_elem? all m) (omega arith)),
                    fresh,
                    all_done_lem node.dependencies done ready,
                  ),
                  later,
                )
          | inr waiting ↦ rw (fresh, waiting) later
        ]
      ]

  contains-named :
      (k : String) (o : Option (DagNode I)) (names done : List String)
      → contains k (names ++ with_name o done) ≡ contains k (named o names ++ done)
  unfolding with_name contains
  contains-named k none names done = refl
  contains-named k (some node) names done =
      contains-append k names (insert_name node.name done)
      ∙ ground (arith, contains-insert_name k node.name done, contains-append k names done)

  pub contains-mark :
      (nodes : List (DagNode I)) (k : String) (layer : List ℕ) (done : List String)
      → contains k (mark nodes layer done) ≡ contains k (names_at nodes layer ++ done)
  unfolding mark
  contains-mark nodes k [] done = refl
  contains-mark nodes k (idx ∷ layer) done =
      contains-mark nodes k layer (with_name (get_elem? nodes idx) done)
      ∙ contains-named k (get_elem? nodes idx) (names_at nodes layer) done

  ComesNext-same :
      (nodes : List (DagNode I)) (done earlier : List String)
      → ((k : String) → contains k done ≡ contains k earlier)
      → (idx : ℕ) → ComesNext nodes done idx
      → ComesNext nodes earlier idx
  ComesNext-same nodes done earlier same idx (node, at, fresh, deps) = (
    node,
    at,
    sym (same node.name) ∙ fresh,
    All-imp (λ d. contains d done ≡ true) (λ d. contains d earlier ≡ true) node.dependencies
        (λ d here. sym (same d) ∙ here) deps,
  )

  pub layers_from-InOrder :
      (nodes : List (DagNode I)) (rounds : ℕ) (done earlier : List String)
      → ((k : String) → contains k done ≡ contains k earlier)
      → InOrder nodes earlier (layers_from rounds nodes done)
  unfolding layers_from
  layers_from-InOrder nodes zero done earlier same = tt
  layers_from-InOrder nodes (suc rounds) done earlier same =
      let layer = ready_from 0 nodes done in
      elim (Bool-cases (ltb (length done) (length nodes))) [
        | inr finished ↦ rw finished tt
        | inl more ↦ elim (Bool-cases (is_empty layer)) [
          | inl stuck ↦ rw (more, stuck) tt
          | inr some_ready ↦
              rw (more, some_ready)
                (
                  some_ready,
                  All-imp (ComesNext nodes done) (ComesNext nodes earlier) layer
                      (ComesNext-same nodes done earlier same)
                      (ready_from-ComesNext nodes nodes 0 done
                        (λ j. ap (λ m. get_elem? nodes m) (omega arith))),
                  layers_from-InOrder nodes rounds (mark nodes layer done)
                      (names_at nodes layer ++ earlier)
                      (λ k.
                        contains-mark nodes k layer done
                        ∙ contains-append k (names_at nodes layer) done
                        ∙ ap (λ b. contains k (names_at nodes layer) || b) (same k)
                        ∙ sym (contains-append k (names_at nodes layer) earlier)),
                )
        ]
      ]
