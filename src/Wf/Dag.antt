-- ===== src/Wf/Dag.antt =====
-- crates/altair-wf/src/dag.rs: the nodes of a DAG and their topological layers. A `HashSet` of names
-- is the list of its elements.
pub mod Layers
pub mod Rounds
pub mod Names
pub mod Complete
pub mod Search
pub mod Acyclic
pub mod Validation
pub mod Run
use altair_rs.Prelude.{
  ℕ, zero, suc, ◌+◌, ◌<◌, Bool, true, false, ◌&&◌, Option, none, some, List, [], ◌∷◌, ltb,
  if◌then◌else◌, length, get_elem?, is_empty,
}
use altair_rs.Prelude.Text.{String}
use altair_rs.Prelude.StringMap.{contains}

pub record DagNode (I : Type 0) : Type 0 where
  pub name : String
  pub input : I
  pub dependencies : List String

pub record DagInput (I : Type 0) : Type 0 where
  pub nodes : List (DagNode I)
  pub fail_fast : Bool
  pub max_parallel : ℕ

-- `HashSet::insert`.
unfoldable pub insert_name : String → List String → List String
insert_name k names = if contains k names then names else k ∷ names

unfoldable pub all_done : List String → List String → Bool
all_done [] done = true
all_done (d ∷ deps) done = contains d done && all_done deps done

module _ {I : Type 0} where
  -- The loop that fills a layer, from the node at `idx` on.
  unfoldable pub ready_from : ℕ → List (DagNode I) → List String → List ℕ
  unfolding all_done
  ready_from idx [] done = []
  ready_from idx (node ∷ nodes) done =
      let rest = ready_from (suc idx) nodes done in
      if contains node.name done
      then rest
      else if all_done node.dependencies done
      then idx ∷ rest
      else rest

  -- `nodes[idx].name`; an index out of range, where Rust panics, is in no layer.
  unfoldable pub with_name : Option (DagNode I) → List String → List String
  unfolding insert_name
  with_name none done = done
  with_name (some node) done = insert_name node.name done

  -- The loop that marks a layer as done.
  unfoldable pub mark : List (DagNode I) → List ℕ → List String → List String
  unfolding with_name
  mark nodes [] done = done
  mark nodes (idx ∷ layer) done = mark nodes layer (with_name (get_elem? nodes idx) done)

  -- The `while` loop, in at most `rounds` rounds.
  unfoldable pub layers_from : ℕ → List (DagNode I) → List String → List (List ℕ)
  unfolding ready_from mark
  layers_from zero nodes done = []
  layers_from (suc rounds) nodes done =
      let layer = ready_from 0 nodes done in
      let rest = layers_from rounds nodes (mark nodes layer done) in
      if ltb (length done) (length nodes) then (if is_empty layer then [] else layer ∷ rest) else []

  -- Each round marks a node, so there are no more rounds than nodes.
  unfoldable pub topological_layers : DagInput I → List (List ℕ)
  unfolding layers_from
  topological_layers input = layers_from (length input.nodes) input.nodes []
