-- ===== src/Wf/Tests/RunDag.antt =====
-- Runs of the validation of a DAG and of `run_dag`, and their theorems at a concrete input.
use altair_rs.Prelude.{ℕ, ◌+◌, ◌≡◌, ◌↔◌, ◌⊎◌, refl, none, some, true, false, [], ◌∷◌, map, length}
use altair_rs.Prelude.StringMap.{contains, insert, lookup}
use altair_rs.Wf.Error.{Error, ok, err}
use altair_rs.Wf.Dag.{DagInput, topological_layers}
use altair_rs.Wf.Dag.Names.{IsSubset, HasNoTwice}
use altair_rs.Wf.Dag.Complete.{names_of, names_in}
use altair_rs.Wf.Dag.Search.{detect_cycles, validate_dag}
use altair_rs.Wf.Dag.Acyclic.{IsClosed, IsAcyclic, detect_cycles_decides}
use altair_rs.Wf.Dag.Validation.{IsValidDag, validate_dag_iff}
use altair_rs.Wf.Dag.Run.{DagOutput, run_dag}
use altair_rs.Wf.Dag.Run.Report.{dag_report}
use altair_rs.Wf.Dag.Run.Layers.{RunsFirst, run_dag_lem}
use altair_rs.Wf.Dag.Run.Nodes.{run_dag_complete}
use altair_rs.Wf.Tests.{small_number, even_number, count_call, backwards}
use altair_rs.Wf.Tests.Dag.{node, diamond}

distinct : HasNoTwice (names_of diamond.nodes)
unfolding contains
distinct = (refl, (refl, (refl, (refl, tt))))

closed : IsClosed diamond.nodes diamond.nodes
unfolding contains
closed = ((refl, (refl, tt)), ((refl, tt), ((refl, tt), (tt, tt))))

detect_cycles_decides_example :
    ((detect_cycles diamond.nodes ≡ ok tt) × IsAcyclic diamond.nodes)
    ⊎ ((e : Error) × (detect_cycles diamond.nodes ≡ err e) × ¬ IsAcyclic diamond.nodes)
detect_cycles_decides_example = detect_cycles_decides diamond.nodes distinct closed

no_cycle : detect_cycles diamond.nodes ≡ ok tt
unfolding detect_cycles insert lookup
no_cycle = refl

validate_dag_iff_example : (validate_dag diamond ≡ ok tt) ↔ IsValidDag diamond
validate_dag_iff_example = validate_dag_iff diamond

run_dag_lem_example :
    ((e : Error) × (validate_dag diamond ≡ err e)
      × (run_dag backwards count_call diamond 5 ≡ (err e, 5)))
    ⊎ (IsValidDag diamond
        × RunsFirst count_call diamond.nodes
            (topological_layers diamond)
            (dag_report diamond.fail_fast)
            (run_dag backwards count_call diamond 5).0)
run_dag_lem_example = run_dag_lem backwards count_call diamond 5

abbrev pair : DagInput ℕ
pair = record {
  nodes = node "b" ("a" ∷ []) ∷ node "a" [] ∷ [];
  fail_fast = false;
  max_parallel = 0;
}

abbrev pair_output : DagOutput ℕ
pair_output = record {
  results = ("a", 0) ∷ ("b", 0) ∷ [];
  node_results =
      record { name = "a"; result = some 0; error = none; success = true }
      ∷ record { name = "b"; result = some 0; error = none; success = true }
      ∷ [];
  total_success = 2;
  total_failed = 0;
}

runs : (run_dag backwards count_call pair 5).0 ≡ ok pair_output
unfolding run_dag contains validate_dag topological_layers insert lookup
runs = refl

run_dag_complete_example :
    (map (λ r. r.name) pair_output.node_results ≡ names_in pair.nodes (topological_layers pair))
    × IsSubset (names_of pair.nodes) (map (λ r. r.name) pair_output.node_results)
    × (pair_output.total_success + pair_output.total_failed ≡ length pair_output.node_results)
run_dag_complete_example = run_dag_complete backwards count_call pair 5 pair_output runs
