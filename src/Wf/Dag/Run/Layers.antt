-- ===== src/Wf/Dag/Run/Layers.antt =====
-- crates/altair-wf/src/patterns.rs: the layers that `run_dag` runs.
use altair_rs.Prelude.{ℕ, ◌≡◌, refl, sym, ap, ◌∙◌, ◌⊎◌, inl, inr, Bool, List, [], ◌∷◌, ◌++◌, map}
use altair_rs.Prelude.Text.{String}
use altair_rs.Wf.Error.{Error, Result, err, ◌>>=◌, Result-cases}
use altair_rs.Wf.Task.{TaskInput, TaskOutput}
use altair_rs.Wf.Futures.{Fut, Futures, Runs}
use altair_rs.Wf.Dag.{DagNode, DagInput, topological_layers}
use altair_rs.Wf.Dag.Search.{validate_dag}
use altair_rs.Wf.Dag.Validation.{IsValidDag, validate_dag_iff}
use altair_rs.Wf.Dag.Run.{
  DagOutput, empty_output, zip, settle_layer, layer_inputs, run_layers, run_dag,
}
use altair_rs.Wf.Dag.Run.Report.{dag_report, settle_layer_lem, settle_layer-append}

abbrev pub inputs_of : {I : Type 0} → List (DagNode I) → List (List ℕ) → List (String × I)
inputs_of nodes [] = []
inputs_of nodes (layer ∷ layers) = layer_inputs nodes layer ++ inputs_of nodes layers

module _ {W I O : Type 0} (execute_one : I → Fut W (Result O)) where
  -- Each outcome stands under the name of its node, and is what the node's task gives in some state.
  abbrev pub NodeRuns : List (String × I) → List (String × Result O) → Type 0
  NodeRuns [] [] = Unit {0}
  NodeRuns [] (y ∷ ys) = ⊥
  NodeRuns (x ∷ xs) [] = ⊥
  NodeRuns (x ∷ xs) (y ∷ ys) =
      (y.0 ≡ x.0) × ((w : W) × (y.1 ≡ (execute_one x.1 w).0)) × NodeRuns xs ys

  NodeRuns-append :
      (xs xs' : List (String × I)) (ys ys' : List (String × Result O))
      → NodeRuns xs ys
      → NodeRuns xs' ys'
      → NodeRuns (xs ++ xs') (ys ++ ys')
  NodeRuns-append [] xs' [] ys' h h' = h'
  NodeRuns-append [] xs' (y ∷ ys) ys' h h' = absurd h
  NodeRuns-append (x ∷ xs) xs' [] ys' h h' = absurd h
  NodeRuns-append (x ∷ xs) xs' (y ∷ ys) ys' (a, b, h) h' =
      (a, b, NodeRuns-append xs xs' ys ys' h h')

  NodeRuns-zip :
      (xs : List (String × I)) (rs : List (Result O))
      → Runs (map (λ p. execute_one p.1) xs) rs
      → NodeRuns xs (zip (map (λ p. p.0) xs) rs)
  NodeRuns-zip [] [] h = tt
  NodeRuns-zip [] (r ∷ rs) h = absurd h
  NodeRuns-zip (x ∷ xs) [] h = absurd h
  NodeRuns-zip (x ∷ xs) (r ∷ rs) (a, h) = (refl, a, NodeRuns-zip xs rs h)

  -- The outcomes of the nodes of some first layers, all of them unless the run fails.
  abbrev pub RunsFirst :
      List (DagNode I)
      → List (List ℕ)
      → (List (String × Result O) → Result (DagOutput O))
      → Result (DagOutput O)
      → Type 0
  RunsFirst nodes layers collected answer =
      (done later : List (List ℕ)) × (outcomes : List (String × Result O)) × (layers
        ≡ done ++ later)
      × NodeRuns (inputs_of nodes done) outcomes
      × (answer ≡ collected outcomes)
      × ((later ≡ []) ⊎ ((e : Error) × (answer ≡ err e)))

module _ {W I O : Type 0} ⦃ti : TaskInput I⦄ ⦃to : TaskOutput O⦄ (lib : Futures W)
    (execute_one : I → Fut W (Result O)) where
  run_layers_lem :
      (fail_fast : Bool) (nodes : List (DagNode I)) (layers : List (List ℕ)) (state : DagOutput O)
      (w : W)
      → RunsFirst execute_one nodes layers
          (λ outcomes. settle_layer fail_fast outcomes state)
          (run_layers lib execute_one fail_fast nodes layers state w).0
  unfolding run_layers settle_layer
  run_layers_lem fail_fast nodes [] state w = ([], [], [], refl, tt, refl, inl refl)
  run_layers_lem fail_fast nodes (layer ∷ layers) state w =
      let inputs = layer_inputs nodes layer in
      let step = lib.join_all (Result O) (map (λ p. execute_one p.1) inputs) w in
      let outcomes = zip (map (λ p. p.0) inputs) step.0 in
      let ran =
        NodeRuns-zip execute_one inputs step.0
          (lib.join_all_in_order (Result O) (map (λ p. execute_one p.1) inputs) w) in
      elim (Result-cases (settle_layer fail_fast outcomes state)) [
        | inl (next, goes) ↦
            let (done, later, rest, split, ran', same, ends) =
              run_layers_lem fail_fast nodes layers next step.1 in
            rw goes (
              layer ∷ done,
              later,
              outcomes ++ rest,
              ap (λ l. layer ∷ l) split,
              NodeRuns-append execute_one inputs (inputs_of nodes done) outcomes rest ran ran',
              same
                  ∙ sym (
                      settle_layer-append fail_fast outcomes rest state
                      ∙ ap (λ r. r >>= settle_layer fail_fast rest) goes),
              ends,
            )
        | inr (e, stops) ↦ rw stops (
          layer ∷ [],
          layers,
          outcomes ++ [],
          refl,
          NodeRuns-append execute_one inputs [] outcomes [] ran tt,
          sym (
              settle_layer-append fail_fast outcomes [] state
              ∙ ap (λ r. r >>= settle_layer fail_fast []) stops),
          inr (e, refl),
        )
      ]

  -- An invalid DAG answers the error of its validation, without a step. A valid one answers the report
  -- on the outcomes of the nodes of its first layers, in order and each under its node's name; those
  -- are all the layers unless the answer is an error.
  pub run_dag_lem :
      (input : DagInput I) (w : W)
      → ((e : Error) × (validate_dag input ≡ err e)
          × (run_dag lib execute_one input w ≡ (err e, w)))
        ⊎ (IsValidDag input
            × RunsFirst execute_one input.nodes
                (topological_layers input)
                (dag_report input.fail_fast)
                (run_dag lib execute_one input w).0)
  unfolding run_dag
  run_dag_lem input w = elim (Result-cases (validate_dag input)) [
    | inr (e, invalid) ↦ inl (e, invalid, rw invalid)
    | inl (u, valid) ↦
        let (done, later, outcomes, split, ran, same, ends) =
          run_layers_lem input.fail_fast input.nodes (topological_layers input) empty_output w in
        inr (
          (validate_dag_iff input).0 valid,
          rw valid (
            done,
            later,
            outcomes,
            split,
            ran,
            same ∙ settle_layer_lem input.fail_fast outcomes empty_output,
            ends,
          ),
        )
  ]
