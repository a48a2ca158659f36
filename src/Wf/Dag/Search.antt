-- ===== src/Wf/Dag/Search.antt =====
-- crates/altair-wf/src/dag.rs: the search for cycles, and the validation of a DAG. A stack is the
-- list of its frames, the last pushed first.
pub mod Order
pub mod Invariant
pub mod Rounds
pub mod Collected
pub mod Cycles
use altair_rs.Prelude.{
  ℕ, zero, suc, ◌+◌, ◌-◌, ◌≡◌, Bool, true, false, Option, none, some, List, [], ◌∷◌, ◌==◌,
  if◌then◌else◌, length, get_elem?, is_empty,
}
use altair_rs.Prelude.Text.{String, ◌+++◌, is_empty_text}
use altair_rs.Prelude.StringMap.{contains, lookup, insert}
use altair_rs.Wf.Error.{Error, invalid_input, display, Result, ok, err, ◌>>=◌, ◌>>◌, map_err}
use altair_rs.Wf.Task.{TaskInput}
use altair_rs.Wf.Dag.{DagNode, DagInput}

-- `HashMap<&str, &[String]>` and `HashMap<&str, u8>`.
abbrev pub Adjacency : Type 0
Adjacency = List (String × List String)

abbrev pub Colors : Type 0
Colors = List (String × ℕ)

abbrev pub Frame : Type 0
Frame = String × ℕ

abbrev pub unwrap_or {ℓ} : {A : Type ℓ} → A → Option A → A
unwrap_or a none = a
unwrap_or a (some b) = b

-- `adj.get(name).copied().unwrap_or(&[])`.
unfoldable pub deps_of : Adjacency → String → List String
deps_of adj name = unwrap_or [] (lookup name adj)

-- `state.get(name).copied().unwrap_or(0)`: 0 is unvisited, 1 visiting, 2 visited.
unfoldable pub color : String → Colors → ℕ
color name state = unwrap_or 0 (lookup name state)

-- What the body does with a dependency, whose key in `adj` and color are given.
unfoldable pub descend :
    Frame → List Frame → Colors → String → Option (List String) → ℕ → Result (List Frame × Colors)
descend frame rest state dep none c = err (invalid_input ("node '" +++ dep +++ "' not found"))
descend (name, cursor) rest state dep (some found) c =
    if c == 1
    then err (invalid_input ("circular dependency detected involving node '" +++ dep +++ "'"))
    else if c == 0
    then ok ((dep, 0) ∷ (name, suc cursor) ∷ rest, insert dep 1 state)
    else ok ((name, suc cursor) ∷ rest, state)

-- The body of the `while` loop, where `next` is the dependency at the cursor: none when the cursor
-- has reached the end.
unfoldable pub dfs_step :
    Adjacency → Frame → List Frame → Colors → Option String → Result (List Frame × Colors)
unfolding color descend
dfs_step adj (name, cursor) rest state none = ok (rest, insert name 2 state)
dfs_step adj frame rest state (some dep) =
    descend frame rest state dep (lookup dep adj) (color dep state)

-- The `while` loop, in at most `rounds` rounds.
unfoldable pub dfs_loop : Adjacency → ℕ → List Frame → Colors → Result Colors
unfolding dfs_step deps_of
dfs_loop adj zero stack state = ok state
dfs_loop adj (suc rounds) [] state = ok state
dfs_loop adj (suc rounds) (frame ∷ rest) state =
    dfs_step adj frame rest state (get_elem? (deps_of adj frame.0) frame.1) >>= λ s.
    dfs_loop adj rounds s.0 s.1

-- A frame for each entry that is unvisited, with a round for each of its dependencies and one more.
unfoldable pub unvisited : Colors → Adjacency → ℕ
unfolding color
unvisited state [] = 0
unvisited state ((name, deps) ∷ adj) =
    (if color name state == 0 then suc (length deps) else 0) + unvisited state adj

-- Enough rounds for a search from any node.
unfoldable pub enough : Adjacency → ℕ
unfolding unvisited
enough adj = unvisited [] adj

unfoldable pub dfs_iterative : String → Adjacency → Colors → Result Colors
unfolding dfs_loop enough
dfs_iterative start adj state =
    dfs_loop adj (suc (enough adj)) ((start, 0) ∷ []) (insert start 1 state)

-- The dependencies of one node.
unfoldable pub check_references : String → List String → List String → Result (Unit {0})
check_references name [] names = ok tt
check_references name (dep ∷ deps) names =
    if contains dep names
    then check_references name deps names
    else err (invalid_input ("node '" +++ name +++ "' depends on missing node '" +++ dep +++ "'"))

module _ {I : Type 0} where
  -- `nodes.iter().map(...).collect()`, from the entries collected so far.
  unfoldable pub collect_adjacency : List (DagNode I) → Adjacency → Adjacency
  collect_adjacency [] adj = adj
  collect_adjacency (node ∷ nodes) adj =
      collect_adjacency nodes (insert node.name node.dependencies adj)

  unfoldable pub search_from : Adjacency → List (DagNode I) → Colors → Result Colors
  unfolding dfs_iterative color
  search_from adj [] state = ok state
  search_from adj (node ∷ nodes) state =
      (if color node.name state == 0 then dfs_iterative node.name adj state else ok state)
      >>= search_from adj nodes

  unfoldable pub detect_cycles : List (DagNode I) → Result (Unit {0})
  unfolding search_from collect_adjacency
  detect_cycles nodes = search_from (collect_adjacency nodes []) nodes [] >>= λ state. ok tt

  -- The first loop of `validate`; it leaves the set of names.
  unfoldable pub check_names : List (DagNode I) → List String → Result (List String)
  check_names [] names = ok names
  check_names (node ∷ nodes) names =
      if is_empty_text node.name
      then err (invalid_input "DAG node name is required")
      else if contains node.name names
      then err (invalid_input ("duplicate DAG node name: " +++ node.name))
      else check_names nodes (node.name ∷ names)

  unfoldable pub check_dependencies : List (DagNode I) → List String → Result (Unit {0})
  unfolding check_references
  check_dependencies [] names = ok tt
  check_dependencies (node ∷ nodes) names =
      check_references node.name node.dependencies names >> check_dependencies nodes names

module _ {I : Type 0} ⦃ti : TaskInput I⦄ where
  unfoldable pub check_inputs : List (DagNode I) → Result (Unit {0})
  check_inputs [] = ok tt
  check_inputs (node ∷ nodes) =
      map_err (λ e. invalid_input ("node '" +++ node.name +++ "': " +++ display e))
        (ti.validate node.input)
      >> check_inputs nodes

  -- `DAGInput::validate`.
  unfoldable pub validate_dag : DagInput I → Result (Unit {0})
  unfolding check_names check_dependencies check_inputs detect_cycles
  validate_dag input =
      if is_empty input.nodes
      then err (invalid_input "DAG must contain at least one node")
      else check_names input.nodes [] >>= λ names.
          check_dependencies input.nodes names
          >> check_inputs input.nodes
          >> detect_cycles input.nodes
