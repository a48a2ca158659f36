-- ===== src/Concurrent/Ordered.antt =====
-- crates/altair-concurrent/src/task_map.rs: the order of a task map, and what an insertion does.
use mathlib.Core.Path.{subst}
use altair_rs.Prelude.{
  ℕ, suc, ◌+◌, ◌≡◌, refl, ap, ◌∙◌, inl, inr, true, false, Option, none, some, List, [], ◌∷◌,
  if◌then◌else◌, length, All, All-imp, Bool-cases, arith,
}
use altair_rs.Prelude.Text.{
  String, str_eq, eq_iff, text_leb, text_leb_total, text_leb_trans, text_leb_antisymm,
}
use altair_rs.Prelude.StringMap.{lookup}
use altair_rs.Prelude.Async.{Fut, Result}
use altair_rs.Concurrent.TaskMap.{btree_insert, map_err, BoxedTaskFn, TaskMap, insert_task, len}
use altair_rs.Concurrent.Pick.{IsDistinct}

-- A key strictly below another.
abbrev IsBelow : String → String → Type 0
IsBelow k k' = (text_leb k k' ≡ true) × (str_eq k k' ≡ false)

apart_sym : (s t : String) → str_eq s t ≡ false → str_eq t s ≡ false
apart_sym s t h = ground (arith, h, eq_iff s t, eq_iff t s)

later_first : (s t : String) → text_leb s t ≡ false → text_leb t s ≡ true
later_first s t h = ground (arith, h, text_leb_total s t)

strict_trans : (k m n : String) → IsBelow k m → IsBelow m n → IsBelow k n
strict_trans k m n (le, apart) (le', apart') = (
  text_leb_trans k m n le le',
  elim (Bool-cases (str_eq k n)) [
    | inr other ↦ other
    | inl same ↦
        let back : text_leb m k ≡ true = ap (text_leb m) ((eq_iff k n).0 same) ∙ le' in
        absurd (let e : str_eq k m ≡ true = (eq_iff k m).1 (text_leb_antisymm k m le back) in cc)
  ],
)

module _ {V : Type 0} where
  -- The keys increase strictly.
  abbrev pub IsOrdered : List (String × V) → Type 0
  IsOrdered [] = Unit {0}
  IsOrdered (x ∷ xs) = All (λ y. IsBelow x.0 y.0) xs × IsOrdered xs

  lookup_above :
      (k : String) (xs : List (String × V)) → All (λ y. IsBelow k y.0) xs → lookup k xs ≡ none
  unfolding lookup
  lookup_above k [] h = refl
  lookup_above k (x ∷ xs) ((le, apart), h) =
      let other = apart_sym k x.0 apart in rw other (lookup_above k xs h)

  pub IsOrdered-IsDistinct : (xs : List (String × V)) → IsOrdered xs → IsDistinct xs
  IsOrdered-IsDistinct [] h = tt
  IsOrdered-IsDistinct (x ∷ xs) (above, h) = (lookup_above x.0 xs above, IsOrdered-IsDistinct xs h)

  insert_above :
      (k key : String) (value : V) (xs : List (String × V))
      → IsBelow k key
      → All (λ y. IsBelow k y.0) xs
      → All (λ y. IsBelow k y.0) (btree_insert key value xs)
  unfolding btree_insert
  insert_above k key value [] below h = (below, tt)
  insert_above k key value (x ∷ xs) below (first, h) = elim (Bool-cases (str_eq x.0 key)) [
    | inl same ↦ rw same (below, h)
    | inr other ↦ elim (Bool-cases (text_leb key x.0)) [
      | inl before ↦ rw (other, before) (below, (first, h))
      | inr later ↦ rw (other, later) (first, insert_above k key value xs below h)
    ]
  ]

  btree_insert-IsOrdered :
      (key : String) (value : V) (xs : List (String × V))
      → IsOrdered xs
      → IsOrdered (btree_insert key value xs)
  unfolding btree_insert
  btree_insert-IsOrdered key value [] h = (tt, tt)
  btree_insert-IsOrdered key value (x ∷ xs) (above, h) = elim (Bool-cases (str_eq x.0 key)) [
    | inl same ↦ rw same (
      All-imp (λ y. IsBelow x.0 y.0) (λ y. IsBelow key y.0) xs
          (λ y below. subst (λ k. IsBelow k y.0) ((eq_iff x.0 key).0 same) below) above,
      h,
    )
    | inr other ↦ elim (Bool-cases (text_leb key x.0)) [
      | inl before ↦
          let first : IsBelow key x.0 = (before, apart_sym x.0 key other) in
          rw (other, before)
            (
              (
                first,
                All-imp (λ y. IsBelow x.0 y.0) (λ y. IsBelow key y.0) xs
                    (λ y below. strict_trans key x.0 y.0 first below) above,
              ),
              (above, h),
            )
      | inr later ↦
          rw (other, later)
            (
              insert_above x.0 key value xs (later_first key x.0 later, other) above,
              btree_insert-IsOrdered key value xs h,
            )
    ]
  ]

  lookup-btree_insert :
      (key other : String) (value : V) (xs : List (String × V))
      → lookup other (btree_insert key value xs)
        ≡ (if str_eq key other then some value else lookup other xs)
  unfolding btree_insert lookup
  lookup-btree_insert key other value [] = refl
  lookup-btree_insert key other value (x ∷ xs) = ground (
    arith,
    lookup-btree_insert key other value xs,
    eq_iff key other,
    eq_iff x.0 key,
    eq_iff x.0 other,
  )

  -- One entry more, unless the key is there.
  abbrev pub grown : Option V → ℕ → ℕ
  grown none n = n + 1
  grown (some v) n = n

  grown-suc : (o : Option V) (n : ℕ) → suc (grown o n) ≡ grown o (suc n)
  grown-suc none n = omega arith
  grown-suc (some v) n = refl

  length-btree_insert :
      (key : String) (value : V) (xs : List (String × V))
      → IsOrdered xs
      → length (btree_insert key value xs) ≡ grown (lookup key xs) (length xs)
  unfolding btree_insert lookup
  length-btree_insert key value [] h = omega arith
  length-btree_insert key value (x ∷ xs) (above, h) = elim (Bool-cases (str_eq x.0 key)) [
    | inl same ↦ rw same
    | inr other ↦ elim (Bool-cases (text_leb key x.0)) [
      | inl before ↦
          let first : IsBelow key x.0 = (before, apart_sym x.0 key other) in
          let nowhere = lookup_above key xs (
            All-imp (λ y. IsBelow x.0 y.0) (λ y. IsBelow key y.0) xs
              (λ y below. strict_trans key x.0 y.0 first below) above) in
          rw (other, before, nowhere) (omega arith)
      | inr later ↦
          rw (other, later)
            (ap suc (length-btree_insert key value xs h) ∙ grown-suc (lookup key xs) (length xs))
    ]
  ]

module _ {W K B T E : Type 0} where
  -- Inserting a task keeps a map in the order of its names; the name then has the new task, and the
  -- others have theirs; the map has one task more unless the name was there.
  pub insert_task_lem :
      (into : E → B) (name other : String) (task : K → Fut W (Result T E)) (tasks : TaskMap W K B T)
      → IsOrdered tasks
      → IsOrdered (insert_task into name task tasks)
        × (lookup other (insert_task into name task tasks) ≡ (
            if str_eq name other
            then some (λ token w. (map_err into (task token w).0, (task token w).1))
            else lookup other tasks))
        × (len (insert_task into name task tasks) ≡ grown (lookup name tasks) (len tasks))
  unfolding insert_task
  insert_task_lem into name other task tasks h =
      let boxed : BoxedTaskFn W K B T =
        λ token w. (map_err into (task token w).0, (task token w).1) in
      (
        btree_insert-IsOrdered name boxed tasks h,
        lookup-btree_insert name other boxed tasks,
        length-btree_insert name boxed tasks h,
      )
