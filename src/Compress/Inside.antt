-- ===== src/Compress/Inside.antt =====
-- Paths inside of a destination, for crates/altair-compress/src/safe_path.rs.
use altair_rs.Prelude.{
  ◌≡◌, refl, sym, ap, ◌∙◌, ◌⊎◌, inl, inr, true, some, [], ◌∷◌, ◌++◌, All, Bool-cases,
}
use mathlib.Core.List.{append-nil}
use altair_rs.Prelude.Async.{ok, err}
use altair_rs.Compress.SafePath.{
  Component, prefix, root_dir, cur_dir, parent_dir, normal, PathBuf, unsafe_path, is_plain,
  without_dots, path_join, parent, check_components, joined_to, resolve,
}

abbrev pub ArePlain : PathBuf → Type 0
ArePlain path = All (λ c. is_plain c ≡ true) path

-- The base, and names below it.
abbrev pub IsInside : PathBuf → PathBuf → Type 0
IsInside base path = (rest : PathBuf) × (path ≡ base ++ rest) × ArePlain rest

-- The base has itself inside.
pub IsInside-refl : (base : PathBuf) → IsInside base base
IsInside-refl base = ([], sym (append-nil base), tt)

without_dots-ArePlain : (path : PathBuf) → ArePlain path → ArePlain (without_dots path)
without_dots-ArePlain [] h = tt
without_dots-ArePlain (cur_dir ∷ path) (_, h) = without_dots-ArePlain path h
without_dots-ArePlain (prefix p ∷ path) (c, h) = (c, without_dots-ArePlain path h)
without_dots-ArePlain (root_dir ∷ path) (c, h) = (c, without_dots-ArePlain path h)
without_dots-ArePlain (parent_dir ∷ path) (c, h) = (c, without_dots-ArePlain path h)
without_dots-ArePlain (normal n ∷ path) (c, h) = (c, without_dots-ArePlain path h)

path_join-IsInside : (base path : PathBuf) → ArePlain path → IsInside base (path_join base path)
unfolding path_join
path_join-IsInside base [] h = IsInside-refl base
path_join-IsInside base (cur_dir ∷ path) (_, h) =
    (without_dots path, refl, without_dots-ArePlain path h)
path_join-IsInside base (normal n ∷ path) (_, h) =
    (normal n ∷ without_dots path, refl, (refl, without_dots-ArePlain path h))
path_join-IsInside base (prefix p ∷ path) (c, h) = cc
path_join-IsInside base (root_dir ∷ path) (c, h) = cc
path_join-IsInside base (parent_dir ∷ path) (c, h) = cc

-- The components that the parent keeps.
parent-more :
    (c d : Component) (path upper : PathBuf)
    → parent (d ∷ path) ≡ some upper
    → parent (c ∷ d ∷ path) ≡ some (c ∷ upper)
unfolding parent
parent-more (prefix p) d path upper h = rw h
parent-more root_dir d path upper h = rw h
parent-more cur_dir d path upper h = rw h
parent-more parent_dir d path upper h = rw h
parent-more (normal n) d path upper h = rw h

parent_plain :
    (c : Component) (path : PathBuf)
    → ArePlain (c ∷ path)
    → (upper : PathBuf) × (parent (c ∷ path) ≡ some upper) × ArePlain upper
unfolding parent
parent_plain cur_dir [] h = ([], refl, tt)
parent_plain (normal n) [] h = ([], refl, tt)
parent_plain (prefix p) [] (h, _) = cc
parent_plain root_dir [] (h, _) = cc
parent_plain parent_dir [] (h, _) = cc
parent_plain c (d ∷ path) (first, h) =
    let (upper, same, plain) = parent_plain d path h in
    (c ∷ upper, parent-more c d path upper same, (first, plain))

parent-append :
    (base : PathBuf) (c : Component) (path : PathBuf)
    → ArePlain (c ∷ path)
    → (upper : PathBuf) × (parent (base ++ (c ∷ path)) ≡ some (base ++ upper)) × ArePlain upper
parent-append [] c path h = parent_plain c path h
parent-append (b ∷ []) c path h =
    let (upper, same, plain) = parent_plain c path h in
    (upper, parent-more b c path upper same, plain)
parent-append (b ∷ d ∷ base) c path h =
    let (upper, same, plain) = parent-append (d ∷ base) c path h in
    (upper, parent-more b d (base ++ (c ∷ path)) (d ∷ (base ++ upper)) same, plain)

-- The parent of a path inside is inside too, but for that of the base itself.
pub parent-IsInside :
    (base path upper : PathBuf)
    → IsInside base path
    → parent path ≡ some upper
    → IsInside base upper ⊎ (parent base ≡ some upper)
parent-IsInside base path upper ([], same, h) up =
    inr (ap parent (sym (same ∙ append-nil base)) ∙ up)
parent-IsInside base path upper (c ∷ rest, same, h) up =
    let (found, above, plain) = parent-append base c rest h in
    let e : some upper ≡ some (base ++ found) = sym up ∙ ap parent same ∙ above in
    inl (found, cc, plain)

module _ {E Z : Type 0} where
  pub check_components-cases :
      (entry : PathBuf) (components : PathBuf)
      → (ArePlain components × (check_components {E = E} {Z = Z} entry components ≡ ok tt))
        ⊎ (¬ ArePlain components
            × (check_components {E = E} {Z = Z} entry components ≡ err (unsafe_path entry)))
  unfolding check_components
  check_components-cases entry [] = inl (tt, refl)
  check_components-cases entry (c ∷ components) = elim (Bool-cases (is_plain c)) [
    | inr refused ↦ inr (λ h. cc, rw refused)
    | inl plain ↦ elim (check_components-cases entry components) [
      | inl (h, same) ↦ inl ((plain, h), rw plain same)
      | inr (h, same) ↦ inr (λ p. h p.1, rw plain same)
    ]
  ]

  -- A path of plain components is resolved to a path inside of the destination, and any other is refused.
  pub resolve_lem :
      (dest entry : PathBuf)
      → (ArePlain entry
          × (resolve {E = E} {Z = Z} dest entry ≡ ok (path_join dest entry))
          × IsInside dest (path_join dest entry))
        ⊎ (¬ ArePlain entry × (resolve {E = E} {Z = Z} dest entry ≡ err (unsafe_path entry)))
  unfolding resolve
  resolve_lem dest entry = elim (check_components-cases entry entry) [
    | inl (plain, same) ↦
        inl (plain, ap (joined_to dest entry) same, path_join-IsInside dest entry plain)
    | inr (h, same) ↦ inr (h, ap (joined_to dest entry) same)
  ]
