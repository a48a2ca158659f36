-- ===== src/Wf/Dag/Search/Invariant.antt =====
-- crates/altair-wf/src/dag.rs: what holds of the stack and the colors between two rounds.
use mathlib.Core.Path.{subst}
use altair_rs.Prelude.{
  ℕ, zero, suc, ◌≤◌, ◌≡◌, refl, sym, ap, ◌∙◌, ◌⊎◌, inl, inr, true, false, none, some, List, [], ◌∷◌,
  ◌++◌, map, ◌==◌, if◌then◌else◌, take, get_elem?, All, All-imp, All-append, arith, Bool-cases,
}
use altair_rs.Prelude.Text.{String, str_eq, eq_iff}
use altair_rs.Prelude.StringMap.{contains, insert, lookup-insert}
use altair_rs.Wf.Dag.Names.{HasNoTwice, str_eq_refl}
use altair_rs.Wf.Dag.Search.{Adjacency, Colors, Frame, deps_of, color}
use altair_rs.Wf.Dag.Search.Order.{IsFinished}

pub color-insert :
    (k j : String) (v : ℕ) (state : Colors)
    → color k (insert j v state) ≡ (if str_eq j k then v else color k state)
unfolding color
color-insert k j v state = elim (Bool-cases (str_eq j k)) [
  | inl same ↦ rw (lookup-insert j k v state, same)
  | inr other ↦ rw (lookup-insert j k v state, other)
]

take-all : (xs : List String) (n : ℕ) → get_elem? xs n ≡ none → take n xs ≡ xs
take-all [] zero h = refl
take-all [] (suc n) h = refl
take-all (x ∷ xs) zero h = cc
take-all (x ∷ xs) (suc n) h = ap (λ l. x ∷ l) (take-all xs n h)

take-next :
    (xs : List String) (n : ℕ) (d : String)
    → get_elem? xs n ≡ some d
    → take (suc n) xs ≡ take n xs ++ (d ∷ [])
take-next [] n d h = cc
take-next (x ∷ xs) zero d h = let e : x ≡ d = cc in ap (λ y. y ∷ []) e
take-next (x ∷ xs) (suc n) d h = ap (λ l. x ∷ l) (take-next xs n d h)

abbrev pub names_of_stack : List Frame → List String
names_of_stack stack = map (λ frame. frame.0) stack

pub contains-some :
    (xs : List String) (n : ℕ) (x : String) → get_elem? xs n ≡ some x → contains x xs ≡ true
unfolding contains
contains-some [] n x h = cc
contains-some (y ∷ xs) zero x h = let e : y ≡ x = cc in ground (arith, (eq_iff y x).1 e)
contains-some (y ∷ xs) (suc n) x h = ground (arith, contains-some xs n x h)

module _ (adj : Adjacency) where
  -- Each name is a dependency of the next one.
  abbrev pub IsPath : List String → Type 0
  IsPath [] = Unit {0}
  IsPath (x ∷ []) = Unit {0}
  IsPath (x ∷ y ∷ names) = (contains x (deps_of adj y) ≡ true) × IsPath (y ∷ names)

  IsPath-tail : (x : String) (names : List String) → IsPath (x ∷ names) → IsPath names
  IsPath-tail x [] h = tt
  IsPath-tail x (y ∷ names) h = h.1

  -- Those before the cursor that are not `child` are finished, frame by frame.
  abbrev pub WaitsFor : String → List String → List Frame → Type 0
  WaitsFor child done [] = Unit {0}
  WaitsFor child done ((name, cursor) ∷ rest) =
      All (λ d. (contains d done ≡ true) ⊎ (d ≡ child)) (take cursor (deps_of adj name))
      × WaitsFor name done rest

  -- The top frame waits for nothing, and each other one at most for the one above it.
  abbrev pub IsWaiting : List String → List Frame → Type 0
  IsWaiting done [] = Unit {0}
  IsWaiting done ((name, cursor) ∷ rest) =
      All (λ d. contains d done ≡ true) (take cursor (deps_of adj name)) × WaitsFor name done rest

  pub record Inv (stack : List Frame) (state : Colors) (done : List String) : Type 0 where
    pub visited : (k : String) → (color k state == 2) ≡ contains k done
    pub visiting : (k : String) → (color k state == 1) ≡ contains k (names_of_stack stack)
    pub small : (k : String) → color k state ≤ 2
    pub distinct : HasNoTwice (names_of_stack stack)
    pub finished : IsFinished (deps_of adj) done
    pub waiting : IsWaiting done stack
    pub path : IsPath (names_of_stack stack)

  WaitsFor-cons :
      (child j : String) (done : List String) (stack : List Frame)
      → WaitsFor child done stack
      → WaitsFor child (j ∷ done) stack
  unfolding contains
  WaitsFor-cons child j done [] h = tt
  WaitsFor-cons child j done ((name, cursor) ∷ rest) (h, hs) = (
    All-imp (λ d. (contains d done ≡ true) ⊎ (d ≡ child))
        (λ d. (contains d (j ∷ done) ≡ true) ⊎ (d ≡ child)) (take cursor (deps_of adj name))
        (λ d w. ground (arith, w)) h,
    WaitsFor-cons name j done rest hs,
  )

  -- The frame above is finished, so the next one waits for nothing.
  IsWaiting-pop :
      (child : String) (done : List String) (stack : List Frame)
      → WaitsFor child done stack
      → IsWaiting (child ∷ done) stack
  unfolding contains
  IsWaiting-pop child done [] h = tt
  IsWaiting-pop child done ((name, cursor) ∷ rest) (h, hs) = (
    All-imp (λ d. (contains d done ≡ true) ⊎ (d ≡ child)) (λ d. contains d (child ∷ done) ≡ true)
        (take cursor (deps_of adj name)) (λ d w. ground (arith, w, eq_iff child d)) h,
    WaitsFor-cons name child done rest hs,
  )

  -- The cursor is at the end: the node is finished.
  pub Inv-pop :
      (name : String) (cursor : ℕ) (rest : List Frame) (state : Colors) (done : List String)
      → get_elem? (deps_of adj name) cursor ≡ none
      → Inv ((name, cursor) ∷ rest) state done
      → Inv rest (insert name 2 state) (name ∷ done)
  unfolding contains
  Inv-pop name cursor rest state done ends h =
      let fresh : contains name done ≡ false =
        ground (arith, h.visited name, h.visiting name, str_eq_refl name) in
      let popped : (k : String)
          → (color k (insert name 2 state) == 1) ≡ contains k (names_of_stack rest) =
        λ k. elim (Bool-cases (str_eq name k)) [
          | inl same ↦
              let gone : contains k (names_of_stack rest) ≡ false =
                ap (λ x. contains x (names_of_stack rest)) (sym ((eq_iff name k).0 same))
                ∙ h.distinct.0 in
              ground (arith, color-insert k name 2 state, same, gone)
          | inr other ↦ ground (arith, color-insert k name 2 state, other, h.visiting k)
        ] in
      record {
        visited = λ k. ground (arith, color-insert k name 2 state, h.visited k, eq_iff name k);
        visiting = λ k. popped k;
        small = λ k. ground (arith, color-insert k name 2 state, h.small k);
        distinct = h.distinct.1;
        finished = (
          fresh,
          subst (All (λ d. contains d done ≡ true)) (take-all (deps_of adj name) cursor ends)
              h.waiting.0,
          h.finished,
        );
        waiting = IsWaiting-pop name done rest h.waiting.1;
        path = IsPath-tail name (names_of_stack rest) h.path;
      }

  -- A dependency that is visited is passed.
  pub Inv-pass :
      (name dep : String) (cursor : ℕ) (rest : List Frame) (state : Colors) (done : List String)
      → get_elem? (deps_of adj name) cursor ≡ some dep
      → contains dep done ≡ true
      → Inv ((name, cursor) ∷ rest) state done
      → Inv ((name, suc cursor) ∷ rest) state done
  Inv-pass name dep cursor rest state done next found h = record {
    visited = h.visited;
    visiting = h.visiting;
    small = h.small;
    distinct = h.distinct;
    finished = h.finished;
    waiting = (
      subst (All (λ d. contains d done ≡ true)) (sym (take-next (deps_of adj name) cursor dep next))
          (All-append (λ d. contains d done ≡ true) (take cursor (deps_of adj name)) (dep ∷ [])
            h.waiting.0 (found, tt)),
      h.waiting.1,
    );
    path = h.path;
  }

  -- One that is unvisited is pushed.
  pub Inv-push :
      (name dep : String) (cursor : ℕ) (rest : List Frame) (state : Colors) (done : List String)
      → get_elem? (deps_of adj name) cursor ≡ some dep
      → color dep state ≡ 0
      → Inv ((name, cursor) ∷ rest) state done
      → Inv ((dep, 0) ∷ (name, suc cursor) ∷ rest) (insert dep 1 state) done
  unfolding contains
  Inv-push name dep cursor rest state done next fresh h =
      let not_done : contains dep done ≡ false = ground (arith, h.visited dep, fresh) in
      let not_on_stack : contains dep (names_of_stack ((name, suc cursor) ∷ rest)) ≡ false =
        ground (arith, h.visiting dep, fresh) in
      record {
        visited = λ k. elim (Bool-cases (str_eq dep k)) [
          | inl same ↦
              let gone : contains k done ≡ false =
                ap (λ x. contains x done) (sym ((eq_iff dep k).0 same)) ∙ not_done in
              ground (arith, color-insert k dep 1 state, same, gone)
          | inr other ↦ ground (arith, color-insert k dep 1 state, other, h.visited k)
        ];
        visiting = λ k. ground (arith, color-insert k dep 1 state, h.visiting k, eq_iff dep k);
        small = λ k. ground (arith, color-insert k dep 1 state, h.small k);
        distinct = (not_on_stack, h.distinct);
        finished = h.finished;
        waiting = (
          tt,
          (
            subst (All (λ d. (contains d done ≡ true) ⊎ (d ≡ dep)))
                (sym (take-next (deps_of adj name) cursor dep next))
                (All-append (λ d. (contains d done ≡ true) ⊎ (d ≡ dep))
                  (take cursor (deps_of adj name)) (dep ∷ [])
                  (All-imp (λ d. contains d done ≡ true) (λ d. (contains d done ≡ true) ⊎ (d ≡ dep))
                    (take cursor (deps_of adj name)) (λ d f. inl f) h.waiting.0)
                  (inr refl, tt)),
            h.waiting.1,
          ),
        );
        path = (contains-some (deps_of adj name) cursor dep next, h.path);
      }
