-- ===== src/Compress/SafePath.antt =====
-- crates/altair-compress/src/safe_path.rs and error.rs. A path is the list of its components.
use altair_rs.Prelude.{ℕ, Bool, true, false, Option, none, some, List, [], ◌∷◌, ◌++◌, if◌then◌else◌}
use altair_rs.Prelude.Text.{String}
use altair_rs.Prelude.Async.{Result, ok, err}

-- `std::path::Component`.
pub data Component : Type 0 where
  prefix : String → Component
  root_dir : Component
  cur_dir : Component
  parent_dir : Component
  normal : String → Component

abbrev pub PathBuf : Type 0
PathBuf = List Component

-- `E` is the type of `std::io::Error` and `Z` that of `ZipError`.
pub data Error (E Z : Type 0) : Type 0 where
  io : E → Error E Z
  compression : String → Error E Z
  zip : Z → Error E Z
  unsafe_path : (path : PathBuf) → Error E Z
  invalid_source : (path : PathBuf) (reason : String) → Error E Z
  decompression_limit : (limit : ℕ) (kind : String) → Error E Z

-- The arms of the match on a component.
abbrev pub is_plain : Component → Bool
is_plain (prefix p) = false
is_plain root_dir = false
is_plain parent_dir = false
is_plain cur_dir = true
is_plain (normal n) = true

-- `components` drops a `.` that is not the first component.
abbrev pub without_dots : PathBuf → PathBuf
without_dots [] = []
without_dots (cur_dir ∷ path) = without_dots path
without_dots (prefix p ∷ path) = prefix p ∷ without_dots path
without_dots (root_dir ∷ path) = root_dir ∷ without_dots path
without_dots (parent_dir ∷ path) = parent_dir ∷ without_dots path
without_dots (normal n ∷ path) = normal n ∷ without_dots path

-- `Path::join`: a path with a root or a prefix replaces the other.
unfoldable pub path_join : PathBuf → PathBuf → PathBuf
path_join base (root_dir ∷ path) = root_dir ∷ path
path_join base (prefix p ∷ path) = prefix p ∷ path
path_join base [] = base
path_join base (cur_dir ∷ path) = base ++ without_dots path
path_join base (parent_dir ∷ path) = base ++ (parent_dir ∷ without_dots path)
path_join base (normal n ∷ path) = base ++ (normal n ∷ without_dots path)

abbrev below : Component → Option PathBuf → Option PathBuf
below c none = none
below c (some path) = some (c ∷ path)

-- `Path::parent`.
unfoldable pub parent : PathBuf → Option PathBuf
parent [] = none
parent (prefix p ∷ []) = none
parent (root_dir ∷ []) = none
parent (cur_dir ∷ []) = some []
parent (parent_dir ∷ []) = some []
parent (normal n ∷ []) = some []
parent (c ∷ d ∷ path) = below c (parent (d ∷ path))

module _ {E Z : Type 0} where
  -- The loop over the components, in `resolve` and in `check_link_target`; the error names `entry`.
  unfoldable pub check_components : PathBuf → List Component → Result (Unit {0}) (Error E Z)
  check_components entry [] = ok tt
  check_components entry (c ∷ components) =
      if is_plain c then check_components entry components else err (unsafe_path entry)

  abbrev pub joined_to :
      PathBuf → PathBuf → Result (Unit {0}) (Error E Z) → Result PathBuf (Error E Z)
  joined_to dest_root entry_path (ok u) = ok (path_join dest_root entry_path)
  joined_to dest_root entry_path (err e) = err e

  unfoldable pub resolve : PathBuf → PathBuf → Result PathBuf (Error E Z)
  unfolding check_components path_join
  resolve dest_root entry_path =
      joined_to dest_root entry_path (check_components entry_path entry_path)

  unfoldable pub check_link_target : PathBuf → PathBuf → Result (Unit {0}) (Error E Z)
  unfolding check_components
  check_link_target entry_path link_target = check_components entry_path link_target
