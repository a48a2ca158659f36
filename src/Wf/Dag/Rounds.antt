-- ===== src/Wf/Dag/Rounds.antt =====
-- crates/altair-wf/src/dag.rs: the rounds of the loop of `topological_layers`.
use altair_rs.Prelude.{
  ℕ, zero, suc, ◌+◌, ◌<◌, ◌≤◌, ◌≡◌, refl, sym, ap, inl, inr, false, Option, none, some, List, [],
  ◌∷◌, ltb, length, get_elem?, is_empty, All, arith, Bool-cases,
}
use altair_rs.Prelude.Text.{String}
use altair_rs.Wf.Dag.{
  DagNode, DagInput, insert_name, ready_from, with_name, mark, layers_from, topological_layers,
}
use altair_rs.Wf.Dag.Layers.{ComesNext, InOrder, ready_from-ComesNext, layers_from-InOrder}

module _ {I : Type 0} where
  length-with_name :
      (o : Option (DagNode I)) (done : List String) → length done ≤ length (with_name o done)
  unfolding with_name insert_name
  length-with_name none done = omega arith
  length-with_name (some node) done = ground arith

  length-mark :
      (nodes : List (DagNode I)) (layer : List ℕ) (done : List String)
      → length done ≤ length (mark nodes layer done)
  unfolding mark
  length-mark nodes [] done = omega arith
  length-mark nodes (idx ∷ layer) done = omega (
    arith,
    length-with_name (get_elem? nodes idx) done,
    length-mark nodes layer (with_name (get_elem? nodes idx) done),
  )

  -- A layer that is not empty marks a node.
  pub mark-grows :
      (nodes : List (DagNode I)) (layer : List ℕ) (done : List String)
      → is_empty layer ≡ false
      → All (ComesNext nodes done) layer
      → length done < length (mark nodes layer done)
  unfolding mark with_name insert_name
  mark-grows nodes [] done h next = cc
  mark-grows nodes (idx ∷ layer) done h ((node, at, fresh, deps), next) =
      let grown : length (with_name (get_elem? nodes idx) done) ≡ suc (length done) =
        rw (at, fresh) in
      omega (arith, grown, length-mark nodes layer (with_name (get_elem? nodes idx) done))

  finished :
      (nodes : List (DagNode I)) (rounds : ℕ) (done : List String)
      → length nodes ≤ length done
      → layers_from rounds nodes done ≡ []
  unfolding layers_from
  finished nodes zero done h = refl
  finished nodes (suc rounds) done h =
      let over : ltb (length done) (length nodes) ≡ false = ground arith in rw over

  rounds_enough :
      (nodes : List (DagNode I)) (m n : ℕ) (done : List String)
      → length nodes ≤ m + length done
      → length nodes ≤ n + length done
      → layers_from m nodes done ≡ layers_from n nodes done
  unfolding layers_from
  rounds_enough nodes zero n done h k = sym (finished nodes n done (omega arith))
  rounds_enough nodes (suc m) zero done h k = finished nodes (suc m) done (omega arith)
  rounds_enough nodes (suc m) (suc n) done h k =
      let layer = ready_from 0 nodes done in
      elim (Bool-cases (ltb (length done) (length nodes))) [
        | inr over ↦ rw over
        | inl more ↦ elim (Bool-cases (is_empty layer)) [
          | inl stuck ↦ rw (more, stuck)
          | inr some_ready ↦
              let grows : length done < length (mark nodes layer done) =
                mark-grows nodes layer done some_ready (
                  ready_from-ComesNext nodes nodes 0 done
                    (λ j. ap (λ m. get_elem? nodes m) (omega arith))) in
              rw (more, some_ready)
                (ap (λ rest. layer ∷ rest)
                  (rounds_enough nodes m n (mark nodes layer done) (omega arith) (omega arith)))
        ]
      ]

  -- The layers of `topological_layers` are not empty; no node has the name of a node of an earlier
  -- layer, and all its dependencies are names of such nodes. Any number of rounds, from the number
  -- of nodes on, gives the same layers.
  pub topological_layers_lem :
      (input : DagInput I) (rounds : ℕ)
      → length input.nodes ≤ rounds
      → InOrder input.nodes [] (topological_layers input)
        × (layers_from rounds input.nodes [] ≡ topological_layers input)
  unfolding topological_layers
  topological_layers_lem input rounds h = (
    layers_from-InOrder input.nodes (length input.nodes) [] [] (λ k. refl),
    rounds_enough input.nodes rounds (length input.nodes) [] (omega arith) (omega arith),
  )
