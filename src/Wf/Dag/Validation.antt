-- ===== src/Wf/Dag/Validation.antt =====
-- crates/altair-wf/src/dag.rs: what `DAGInput::validate` accepts.
use altair_rs.Prelude.{
  ◌≡◌, ◌↔◌, refl, sym, ap, ◌∙◌, ◌⊎◌, inl, inr, Bool, true, false, ◌||◌, List, [], ◌∷◌, is_empty,
  All, All-imp, arith, Bool-cases,
}
use altair_rs.Prelude.Text.{String, ◌+++◌, str_eq, eq_iff, is_empty_text}
use altair_rs.Prelude.StringMap.{contains}
use altair_rs.Wf.Error.{Error, invalid_input, Result, ok, err, ◌>>◌, Result-cases, ok_of_bind}
use altair_rs.Wf.Task.{TaskInput}
use altair_rs.Wf.Dag.{DagNode, DagInput}
use altair_rs.Wf.Dag.Names.{HasNoTwice, str_eq_refl}
use altair_rs.Wf.Dag.Complete.{names_of}
use altair_rs.Wf.Dag.Search.{
  check_names, check_references, check_dependencies, check_inputs, detect_cycles, validate_dag,
}
use altair_rs.Wf.Dag.Acyclic.{IsClosed, IsAcyclic, detect_cycles_decides}

module _ {I : Type 0} where
  -- Named, and each name once, also among those seen before.
  abbrev pub HasNames : List (DagNode I) → List String → Type 0
  HasNames [] names = Unit {0}
  HasNames (node ∷ nodes) names =
      (is_empty_text node.name ≡ false)
      × (contains node.name names ≡ false)
      × HasNames nodes (node.name ∷ names)

  -- The names after the loop are those seen before and those of the nodes.
  abbrev Collects : List (DagNode I) → List String → Result (List String) → Type 0
  Collects nodes names answer =
      (all : List String) × (answer ≡ ok all)
      × ((k : String) → contains k all ≡ (contains k (names_of nodes) || contains k names))

  check_names-cases :
      (nodes : List (DagNode I)) (names : List String)
      → (HasNames nodes names × Collects nodes names (check_names nodes names))
        ⊎ ((e : Error) × (check_names nodes names ≡ err e) × ¬ HasNames nodes names)
  unfolding check_names contains
  check_names-cases [] names = inl (tt, (names, refl, λ k. refl))
  check_names-cases (node ∷ nodes) names = elim (Bool-cases (is_empty_text node.name)) [
    | inl nameless ↦ inr (invalid_input "DAG node name is required", rw nameless, λ h. cc)
    | inr named ↦ elim (Bool-cases (contains node.name names)) [
      | inl twice ↦
          inr
            (invalid_input ("duplicate DAG node name: " +++ node.name), rw (named, twice), λ h. cc)
      | inr fresh ↦ elim (check_names-cases nodes (node.name ∷ names)) [
        | inl (h, (all, ends, same)) ↦
            inl ((named, fresh, h), (all, rw (named, fresh) ends, λ k. ground (arith, same k)))
        | inr (e, fails, refused) ↦
            inr (e, rw (named, fresh) fails, λ (first, unseen, later). refused later)
      ]
    ]
  ]

  AllNamed : List (DagNode I) → Type 0
  AllNamed nodes = All (λ node. is_empty_text node.name ≡ false) nodes

  -- The names are apart from those seen before.
  abbrev AreApart : List (DagNode I) → List String → Type 0
  AreApart nodes names =
      (k : String) → contains k (names_of nodes) ≡ true → contains k names ≡ false

  HasNames-distinct :
      (nodes : List (DagNode I)) (names : List String)
      → HasNames nodes names
      → AllNamed nodes × HasNoTwice (names_of nodes) × AreApart nodes names
  unfolding contains AllNamed
  HasNames-distinct [] names h = (tt, tt, λ k here. cc)
  HasNames-distinct (node ∷ nodes) names (named, fresh, h) =
      let (all, distinct, apart) = HasNames-distinct nodes (node.name ∷ names) h in
      (
        (named, all),
        (once node.name (names_of nodes) names (apart node.name), distinct),
        λ k here. elim (Bool-cases (str_eq node.name k)) [
          | inl same ↦ ap (λ x. contains x names) (sym ((eq_iff node.name k).0 same)) ∙ fresh
          | inr other ↦ ground (arith, apart k, here, other)
        ],
      )
    where
      once :
          (k : String) (all names : List String)
          → (contains k all ≡ true → contains k (k ∷ names) ≡ false)
          → contains k all ≡ false
      once k all names apart = elim (Bool-cases (contains k all)) [
        | inl here ↦ ground (arith, apart here, str_eq_refl k)
        | inr fresh ↦ fresh
      ]

  HasNames-intro :
      (nodes : List (DagNode I)) (names : List String)
      → AllNamed nodes
      → HasNoTwice (names_of nodes)
      → AreApart nodes names
      → HasNames nodes names
  unfolding contains AllNamed
  HasNames-intro [] names all distinct apart = tt
  HasNames-intro (node ∷ nodes) names (named, all) (fresh, distinct) apart = (
    named,
    apart node.name (ground (arith, str_eq_refl node.name)),
    HasNames-intro nodes (node.name ∷ names) all distinct (λ k here.
        elim (Bool-cases (str_eq node.name k)) [
          | inl same ↦
              let again : contains node.name (names_of nodes) ≡ true =
                ap (λ x. contains x (names_of nodes)) ((eq_iff node.name k).0 same) ∙ here in
              cc
          | inr other ↦ ground (arith, apart k, here, other)
        ]),
  )

check_references_iff :
    (name : String) (deps names : List String)
    → (check_references name deps names ≡ ok tt) ↔ All (λ d. contains d names ≡ true) deps
unfolding check_references
check_references_iff name [] names = (λ h. tt, λ h. refl)
check_references_iff name (d ∷ deps) names =
    let (to, from) = check_references_iff name deps names in
    elim (Bool-cases (contains d names)) [
      | inl known ↦ rw known (λ h. (refl, to h), λ h. from h.1)
      | inr unknown ↦ rw unknown (λ h. cc, λ h. cc)
    ]

module _ {I : Type 0} where
  check_dependencies_iff :
      (all nodes : List (DagNode I)) (names : List String)
      → ((k : String) → contains k names ≡ contains k (names_of all))
      → (check_dependencies nodes names ≡ ok tt) ↔ IsClosed all nodes
  unfolding check_dependencies
  check_dependencies_iff all [] names same = (λ h. tt, λ h. refl)
  check_dependencies_iff all (node ∷ nodes) names same =
      let (to, from) = check_references_iff node.name node.dependencies names in
      let (to', from') = check_dependencies_iff all nodes names same in
      (
        λ h.
            let (u, first, rest) =
              ok_of_bind (check_references node.name node.dependencies names)
                (λ _. check_dependencies nodes names) h in
            (
              All-imp (λ d. contains d names ≡ true) (λ d. contains d (names_of all) ≡ true)
                  node.dependencies (λ d k. sym (same d) ∙ k) (to first),
              to' rest,
            ),
        λ (h, hs).
            rw
              (from (
                All-imp (λ d. contains d (names_of all) ≡ true) (λ d. contains d names ≡ true)
                  node.dependencies (λ d k. same d ∙ k) h))
              (from' hs),
      )

or_nothing : (b : Bool) (k : String) → (b || contains k []) ≡ b
unfolding contains
or_nothing true k = refl
or_nothing false k = refl

nothing_seen : (k : String) → contains k [] ≡ false
unfolding contains
nothing_seen k = refl

module _ {I : Type 0} ⦃ti : TaskInput I⦄ where
  abbrev pub AllValid : List (DagNode I) → Type 0
  AllValid nodes = All (λ node. ti.validate node.input ≡ ok tt) nodes

  check_inputs_iff : (nodes : List (DagNode I)) → (check_inputs nodes ≡ ok tt) ↔ AllValid nodes
  unfolding check_inputs
  check_inputs_iff [] = (λ h. tt, λ h. refl)
  check_inputs_iff (node ∷ nodes) =
      let (to, from) = check_inputs_iff nodes in
      elim (Result-cases (ti.validate node.input)) [
        | inl (u, valid) ↦ rw valid (λ h. (refl, to h), λ h. from h.1)
        | inr (e, invalid) ↦ rw invalid (λ h. cc, λ h. cc)
      ]

  -- There is a node; every node has a name of its own, depends on nodes, and has a valid input; and
  -- some rank decreases along the dependencies.
  pub record IsValidDag (input : DagInput I) : Type 0 where
    pub some_node : is_empty input.nodes ≡ false
    pub named : All (λ node. is_empty_text node.name ≡ false) input.nodes
    pub distinct : HasNoTwice (names_of input.nodes)
    pub closed : IsClosed input.nodes input.nodes
    pub valid : AllValid input.nodes
    pub acyclic : IsAcyclic input.nodes

  accepted :
      (input : DagInput I) (all : List String)
      → is_empty input.nodes ≡ false
      → HasNames input.nodes []
      → ((k : String) → contains k all ≡ (contains k (names_of input.nodes) || contains k []))
      → (check_dependencies input.nodes all
          >> check_inputs input.nodes
          >> detect_cycles input.nodes)
        ≡ ok tt
      → IsValidDag input
  unfolding AllNamed
  accepted input all some_node has_names known h =
      let (named, distinct, apart) = HasNames-distinct input.nodes [] has_names in
      let (_, both, searched) =
        ok_of_bind (check_dependencies input.nodes all >> check_inputs input.nodes)
          (λ _. detect_cycles input.nodes) h in
      let (_, closed_ok, valid_ok) =
        ok_of_bind (check_dependencies input.nodes all) (λ _. check_inputs input.nodes) both in
      let closed =
        (check_dependencies_iff input.nodes input.nodes all
            (λ k. known k ∙ or_nothing (contains k (names_of input.nodes)) k)).0
          closed_ok in
      record {
        some_node = some_node;
        named = named;
        distinct = distinct;
        closed = closed;
        valid = (check_inputs_iff input.nodes).0 valid_ok;
        acyclic = elim (detect_cycles_decides input.nodes distinct closed) [
          | inl (_, acyclic) ↦ acyclic
          | inr (e, fails, _) ↦ absurd (let same : err e ≡ ok tt = sym fails ∙ searched in cc)
        ];
      }

  detects : (input : DagInput I) → IsValidDag input → detect_cycles input.nodes ≡ ok tt
  detects input v = elim (detect_cycles_decides input.nodes v.distinct v.closed) [
    | inl (searched, _) ↦ searched
    | inr (e, fails, cyclic) ↦ absurd (cyclic v.acyclic)
  ]

  -- The validation of a DAG accepts exactly those that have a node, whose nodes have names of their own,
  -- depend on nodes and have valid inputs, and where some rank decreases along the dependencies.
  pub validate_dag_iff : (input : DagInput I) → (validate_dag input ≡ ok tt) ↔ IsValidDag input
  unfolding validate_dag AllNamed
  validate_dag_iff input = (
    λ h. elim (Bool-cases (is_empty input.nodes)) [
      | inl empty ↦ absurd (
          let e : err (invalid_input "DAG must contain at least one node") ≡ ok tt =
            rw empty at h in
          cc)
      | inr some_node ↦ elim (check_names-cases input.nodes []) [
        | inr (e, fails, refused) ↦
            absurd (let same : err e ≡ ok tt = rw (some_node, fails) at h in cc)
        | inl (has_names, (all, ends, known)) ↦
            accepted input all some_node has_names known (rw (some_node, ends) at h)
      ]
    ],
    λ v. elim (check_names-cases input.nodes []) [
      | inr (e, fails, refused) ↦
          absurd
            (refused (HasNames-intro input.nodes [] v.named v.distinct (λ k here. nothing_seen k)))
      | inl (has_names, (all, ends, known)) ↦
          rw
            (
              v.some_node,
              ends,
              (check_dependencies_iff input.nodes input.nodes all
                    (λ k. known k ∙ or_nothing (contains k (names_of input.nodes)) k)).1
                  v.closed,
              (check_inputs_iff input.nodes).1 v.valid,
            )
            (detects input v)
    ],
  )
