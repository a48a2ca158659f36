-- ===== src/Wf/Dag/Run.antt =====
-- crates/altair-wf/src/patterns.rs: `run_dag`, and the results of dag.rs.
pub mod Report
pub mod Layers
pub mod Nodes
use altair_rs.Prelude.{
  ℕ, ◌+◌, Bool, true, false, Option, none, some, List, [], ◌∷◌, ◌++◌, map, if◌then◌else◌, get_elem?,
}
use altair_rs.Prelude.Text.{String}
use altair_rs.Prelude.StringMap.{insert}
use altair_rs.Wf.Error.{Error, pattern_stopped, display, Result, ok, err, ◌>>=◌}
use altair_rs.Wf.Task.{TaskInput, TaskOutput}
use altair_rs.Wf.Futures.{Fut, Futures, and_then}
use altair_rs.Wf.Patterns.{reported}
use altair_rs.Wf.Dag.{DagNode, DagInput, topological_layers}
use altair_rs.Wf.Dag.Search.{validate_dag}

pub record NodeResult (O : Type 0) : Type 0 where
  pub name : String
  pub result : Option O
  pub error : Option String
  pub success : Bool

pub record DagOutput (O : Type 0) : Type 0 where
  pub results : List (String × O)
  pub node_results : List (NodeResult O)
  pub total_success : ℕ
  pub total_failed : ℕ

abbrev pub empty_output : {O : Type 0} → DagOutput O
empty_output = record { results = []; node_results = []; total_success = 0; total_failed = 0 }

-- `Iterator::zip`, which ends with the shorter of the two.
abbrev pub zip : {A B : Type 0} → List A → List B → List (A × B)
zip [] ys = []
zip (x ∷ xs) [] = []
zip (x ∷ xs) (y ∷ ys) = (x, y) ∷ zip xs ys

module _ {O : Type 0} ⦃to : TaskOutput O⦄ where
  -- The body of the loop over the outcomes of a layer.
  unfoldable pub settle_node : Bool → String → Result O → DagOutput O → Result (DagOutput O)
  settle_node fail_fast name (ok out) state =
      if to.is_success out
      then ok (record state {
        results = insert name out state.results;
        node_results =
            state.node_results
            ++ (record { name = name; result = some out; error = none; success = true } ∷ []);
        total_success = state.total_success + 1;
      })
      else if fail_fast
      then err (pattern_stopped name (reported out))
      else ok (record state {
        node_results =
            state.node_results
            ++ (record { name = name; result = some out; error = to.error out; success = false }
                ∷ []);
        total_failed = state.total_failed + 1;
      })
  settle_node fail_fast name (err e) state =
      if fail_fast
      then err (pattern_stopped name (display e))
      else ok (record state {
        node_results =
            state.node_results
            ++ (record { name = name; result = none; error = some (display e); success = false }
                ∷ []);
        total_failed = state.total_failed + 1;
      })

  -- The loop over the outcomes of a layer.
  unfoldable pub settle_layer : Bool → List (String × Result O) → DagOutput O → Result (DagOutput O)
  unfolding settle_node
  settle_layer fail_fast [] state = ok state
  settle_layer fail_fast ((name, outcome) ∷ outcomes) state =
      settle_node fail_fast name outcome state >>= settle_layer fail_fast outcomes

-- `nodes[idx]`, its name and its input; an index out of range, where Rust panics, is in no layer.
abbrev pub with_input : {I : Type 0} → Option (DagNode I) → List (String × I) → List (String × I)
with_input none inputs = inputs
with_input (some node) inputs = (node.name, node.input) ∷ inputs

abbrev pub layer_inputs : {I : Type 0} → List (DagNode I) → List ℕ → List (String × I)
layer_inputs nodes [] = []
layer_inputs nodes (idx ∷ layer) = with_input (get_elem? nodes idx) (layer_inputs nodes layer)

module _ {W I O : Type 0} ⦃ti : TaskInput I⦄ ⦃to : TaskOutput O⦄ (lib : Futures W)
    (execute_one : I → Fut W (Result O)) where
  -- The loop over the layers.
  unfoldable pub run_layers :
      Bool → List (DagNode I) → List (List ℕ) → DagOutput O → Fut W (Result (DagOutput O))
  unfolding settle_layer
  run_layers fail_fast nodes [] state w = (ok state, w)
  run_layers fail_fast nodes (layer ∷ layers) state w =
      let inputs = layer_inputs nodes layer in
      let (outcomes, w') = lib.join_all (Result O) (map (λ p. execute_one p.1) inputs) w in
      and_then (settle_layer fail_fast (zip (map (λ p. p.0) inputs) outcomes) state)
        (run_layers fail_fast nodes layers) w'

  unfoldable pub run_dag : DagInput I → Fut W (Result (DagOutput O))
  unfolding validate_dag topological_layers run_layers
  run_dag input =
      and_then (validate_dag input)
        λ _. run_layers input.fail_fast input.nodes (topological_layers input) empty_output
