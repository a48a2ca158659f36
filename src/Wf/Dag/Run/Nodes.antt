-- ===== src/Wf/Dag/Run/Nodes.antt =====
-- crates/altair-wf/src/patterns.rs: the nodes in the output of `run_dag`.
use mathlib.Core.List.{append-nil}
use altair_rs.Prelude.{
  ℕ, ◌+◌, ◌≡◌, refl, sym, ap, ◌∙◌, inl, inr, Bool, true, false, Option, none, some, List, [], ◌∷◌,
  ◌++◌, map, get_elem?, length, length-map, arith,
}
use mathlib.Core.Path.{subst}
use altair_rs.Prelude.Text.{String}
use altair_rs.Wf.Error.{Result, ok, err}
use altair_rs.Wf.Task.{TaskInput, TaskOutput}
use altair_rs.Wf.Futures.{Fut, Futures}
use altair_rs.Wf.Dag.{DagNode, DagInput, topological_layers}
use altair_rs.Wf.Dag.Layers.{named, names_at}
use altair_rs.Wf.Dag.Names.{IsSubset}
use altair_rs.Wf.Dag.Complete.{names_of, names_in, topological_layers_complete}
use altair_rs.Wf.Dag.Run.{DagOutput, empty_output, with_input, layer_inputs, run_dag}
use altair_rs.Wf.Dag.Run.Report.{
  with_outcomes, stopped_by, first_failure, node_result, succeeded-add-failed, node_results-names,
}
use altair_rs.Wf.Dag.Run.Layers.{inputs_of, NodeRuns, run_dag_lem}

-- The first component of each pair.
abbrev names : {A : Type 0} → List (String × A) → List String
names xs = map (λ x. x.0) xs

map-append : {A : Type 0} (xs ys : List (String × A)) → names (xs ++ ys) ≡ names xs ++ names ys
map-append [] ys = refl
map-append (x ∷ xs) ys = ap (λ l. x.0 ∷ l) (map-append xs ys)

module _ {I : Type 0} where
  layer_inputs-names :
      (nodes : List (DagNode I)) (layer : List ℕ)
      → names (layer_inputs nodes layer) ≡ names_at nodes layer
  layer_inputs-names nodes [] = refl
  layer_inputs-names nodes (idx ∷ layer) =
      one (get_elem? nodes idx) (layer_inputs-names nodes layer)
    where
      one :
          (o : Option (DagNode I))
          → names (layer_inputs nodes layer) ≡ names_at nodes layer
          → names (with_input o (layer_inputs nodes layer)) ≡ named o (names_at nodes layer)
      one none h = h
      one (some node) h = ap (λ l. node.name ∷ l) h

  inputs_of-names :
      (nodes : List (DagNode I)) (layers : List (List ℕ))
      → names (inputs_of nodes layers) ≡ names_in nodes layers
  inputs_of-names nodes [] = refl
  inputs_of-names nodes (layer ∷ layers) =
      map-append (layer_inputs nodes layer) (inputs_of nodes layers)
      ∙ rw (layer_inputs-names nodes layer, inputs_of-names nodes layers)

NodeRuns-names :
    {W I O : Type 0} (execute_one : I → Fut W (Result O)) (xs : List (String × I))
    (ys : List (String × Result O))
    → NodeRuns execute_one xs ys
    → names ys ≡ names xs
NodeRuns-names execute_one [] [] h = refl
NodeRuns-names execute_one [] (y ∷ ys) h = absurd h
NodeRuns-names execute_one (x ∷ xs) [] h = absurd h
NodeRuns-names execute_one (x ∷ xs) (y ∷ ys) (same, run, h) =
    rw (same, NodeRuns-names execute_one xs ys h)

-- Where the run is not stopped, its answer is the state.
ok_of_stopped :
    {A : Type 0} (fail_fast : Bool) (o : Option (String × String)) (a b : A)
    → stopped_by fail_fast o a ≡ ok b
    → b ≡ a
ok_of_stopped true none a b h = cc
ok_of_stopped true (some (name, reason)) a b h = cc
ok_of_stopped false o a b h = cc

module _ {W I O : Type 0} ⦃ti : TaskInput I⦄ ⦃to : TaskOutput O⦄ (lib : Futures W)
    (execute_one : I → Fut W (Result O)) where
  -- Where `run_dag` answers an output, its results name the nodes in the order of the layers, every
  -- node is among them, and the two totals add up to the number of results.
  pub run_dag_complete :
      (input : DagInput I) (w : W) (out : DagOutput O)
      → (run_dag lib execute_one input w).0 ≡ ok out
      → (map (λ r. r.name) out.node_results ≡ names_in input.nodes (topological_layers input))
        × IsSubset (names_of input.nodes) (map (λ r. r.name) out.node_results)
        × (out.total_success + out.total_failed ≡ length out.node_results)
  run_dag_complete input w out h = elim (run_dag_lem lib execute_one input w) [
    | inl (e, invalid, fails) ↦
        absurd (let same : err e ≡ ok out = sym (ap (λ x. x.0) fails) ∙ h in cc)
    | inr (v, (done, later, outcomes, split, ran, same, inr (e, fails))) ↦
        absurd (let clash : err e ≡ ok out = sym fails ∙ h in cc)
    | inr (v, (done, later, outcomes, split, ran, same, inl nothing)) ↦
        let all : topological_layers input ≡ done = split ∙ rw (nothing, append-nil done) in
        let answer : out ≡ with_outcomes outcomes empty_output =
          ok_of_stopped input.fail_fast (first_failure outcomes)
            (with_outcomes outcomes empty_output) out (sym same ∙ h) in
        let in_order : map (λ r. r.name) out.node_results
            ≡ names_in input.nodes (topological_layers input) =
          ap (λ o. map (λ r. r.name) o.node_results) answer
          ∙ node_results-names outcomes
          ∙ NodeRuns-names execute_one (inputs_of input.nodes done) outcomes ran
          ∙ inputs_of-names input.nodes done
          ∙ ap (names_in input.nodes) (sym all) in
        (
          in_order,
          subst (λ l. IsSubset (names_of input.nodes) l) (sym in_order)
              (topological_layers_complete input v.acyclic.0 v.acyclic.1),
          subst (λ o. o.total_success + o.total_failed ≡ length o.node_results) (sym answer)
              (omega (arith, succeeded-add-failed outcomes, length-map node_result outcomes)),
        )
  ]
