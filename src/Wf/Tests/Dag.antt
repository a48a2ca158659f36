-- ===== src/Wf/Tests/Dag.antt =====
-- Runs of the functions of crates/altair-wf/src/dag.rs, and the theorems at a concrete input.
use altair_rs.Prelude.{ℕ, ◌≡◌, refl, true, List, [], ◌∷◌, arith, if◌then◌else◌}
use altair_rs.Prelude.Text.{String, str_eq}
use altair_rs.Prelude.StringMap.{contains}
use altair_rs.Wf.Dag.{DagNode, DagInput, layers_from, topological_layers}
use altair_rs.Wf.Dag.Layers.{InOrder}
use altair_rs.Wf.Dag.Names.{IsSubset}
use altair_rs.Wf.Dag.Rounds.{topological_layers_lem}
use altair_rs.Wf.Dag.Complete.{names_of, names_in, IsRanked, topological_layers_complete}

abbrev pub node : String → List String → DagNode ℕ
node name dependencies = record { name = name; input = 0; dependencies = dependencies }

abbrev pub diamond : DagInput ℕ
diamond = record {
  nodes =
      node "deploy" ("test" ∷ "lint" ∷ [])
      ∷ node "test" ("build" ∷ [])
      ∷ node "lint" ("build" ∷ [])
      ∷ node "build" []
      ∷ [];
  fail_fast = true;
  max_parallel = 0;
}

three_layers : topological_layers diamond ≡ (3 ∷ []) ∷ (1 ∷ 2 ∷ []) ∷ (0 ∷ []) ∷ []
unfolding topological_layers contains
three_layers = refl

-- A cycle ends the loop before the nodes on it.
cut_short :
    topological_layers
      (record diamond { nodes = node "a" ("b" ∷ []) ∷ node "b" ("a" ∷ []) ∷ node "c" [] ∷ [] })
    ≡ (2 ∷ []) ∷ []
unfolding topological_layers contains
cut_short = refl

topological_layers_lem_example :
    InOrder diamond.nodes [] (topological_layers diamond)
    × (layers_from 9 diamond.nodes [] ≡ topological_layers diamond)
topological_layers_lem_example = topological_layers_lem diamond 9 (omega arith)

abbrev stage : String → ℕ
stage name = if str_eq name "build" then 0 else if str_eq name "deploy" then 2 else 1

diamond-IsRanked : IsRanked stage diamond.nodes diamond.nodes
unfolding contains
diamond-IsRanked = (
  ((refl, omega arith), ((refl, omega arith), tt)),
  (((refl, omega arith), tt), (((refl, omega arith), tt), (tt, tt))),
)

topological_layers_complete_example :
    IsSubset (names_of diamond.nodes) (names_in diamond.nodes (topological_layers diamond))
topological_layers_complete_example = topological_layers_complete diamond stage diamond-IsRanked
