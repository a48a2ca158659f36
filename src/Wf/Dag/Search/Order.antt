-- ===== src/Wf/Dag/Search/Order.antt =====
-- crates/altair-wf/src/dag.rs: the order in which the search finishes nodes, and the rank that it
-- gives them.
use mathlib.Core.Path.{subst}
use altair_rs.Prelude.{
  ℕ, suc, ◌<◌, ◌≤◌, ◌≡◌, ap, ◌∙◌, inl, inr, true, false, List, [], ◌∷◌, if◌then◌else◌, length, All,
  All-imp, arith, Bool-cases,
}
use altair_rs.Prelude.Text.{String, str_eq, eq_iff}
use altair_rs.Prelude.StringMap.{contains}
use altair_rs.Wf.Dag.Names.{str_eq_refl}

-- Each name stands after all its dependencies, and once; the last finished stands first.
abbrev pub IsFinished : (String → List String) → List String → Type 0
IsFinished deps [] = Unit {0}
IsFinished deps (k ∷ done) =
    (contains k done ≡ false) × All (λ d. contains d done ≡ true) (deps k) × IsFinished deps done

-- The place of a name, counted from the end, and 0 for a name that is not there.
unfoldable pub place : List String → String → ℕ
place [] k = 0
place (j ∷ done) k = if str_eq j k then suc (length done) else place done k

place-le : (done : List String) (k : String) → place done k ≤ length done
unfolding place
place-le [] k = omega arith
place-le (j ∷ done) k = ground (arith, place-le done k)

-- A name that is not the first keeps its place.
place-later :
    (j k : String) (done : List String)
    → contains j done ≡ false
    → contains k done ≡ true
    → place (j ∷ done) k ≡ place done k
unfolding place
place-later j k done fresh here = elim (Bool-cases (str_eq j k)) [
  | inr other ↦ rw other
  | inl same ↦
      let e : contains j done ≡ true = ap (λ x. contains x done) ((eq_iff j k).0 same) ∙ here in cc
]

-- Finished before `k`.
abbrev pub IsBefore : List String → String → String → Type 0
IsBefore done k d = (contains d done ≡ true) × (place done d < place done k)

newest :
    (j d : String) (done : List String)
    → contains j done ≡ false
    → contains d done ≡ true
    → IsBefore (j ∷ done) j d
unfolding place contains
newest j d done fresh here =
    let later : place (j ∷ done) d ≡ place done d = place-later j d done fresh here in
    let first : place (j ∷ done) j ≡ suc (length done) = rw (str_eq_refl j) in
    (ground (arith, here), omega (arith, later, first, place-le done d))

older :
    (j k d : String) (done : List String)
    → contains j done ≡ false
    → contains k done ≡ true
    → IsBefore done k d
    → IsBefore (j ∷ done) k d
unfolding contains
older j k d done fresh found (here, less) = (
  ground (arith, here),
  omega (arith, place-later j d done fresh here, place-later j k done fresh found),
)

-- The dependencies of a finished name are finished before it.
pub place-IsFinished :
    (deps : String → List String) (done : List String) (k : String)
    → IsFinished deps done
    → contains k done ≡ true
    → All (IsBefore done k) (deps k)
unfolding contains
place-IsFinished deps [] k h here = cc
place-IsFinished deps (j ∷ done) k (fresh, ready, h) here = elim (Bool-cases (str_eq j k)) [
  | inl same ↦
      subst (λ x. All (IsBefore (j ∷ done) x) (deps x)) ((eq_iff j k).0 same)
        (All-imp (λ d. contains d done ≡ true) (IsBefore (j ∷ done) j) (deps j)
          (λ d here. newest j d done fresh here) ready)
  | inr other ↦
      let found : contains k done ≡ true = ground (arith, here, other) in
      All-imp (IsBefore done k) (IsBefore (j ∷ done) k) (deps k)
        (λ d before. older j k d done fresh found before) (place-IsFinished deps done k h found)
]
