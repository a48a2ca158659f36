-- ===== src/Compress/Files.antt =====
-- What crates/altair-compress/src takes from the file system and from the crates tar, zip and flate2,
-- as steps on the state `W` outside of it. `X` is the type of the contents of an entry.
use altair_rs.Prelude.{ℕ, ◌≤◌, ◌≡◌, Bool, Option, List}
use altair_rs.Prelude.Async.{Fut, Result, ok}
use altair_rs.Compress.SafePath.{PathBuf}

-- An entry of a tar archive, as its header reads.
pub record TarEntry (X E : Type 0) : Type 0 where
  pub path : Result PathBuf E
  pub is_file : Bool
  pub is_symlink : Bool
  pub is_hard_link : Bool
  pub link_name : Result (Option PathBuf) E
  pub content : X

-- An entry of a zip archive.
pub record ZipEntry (X : Type 0) : Type 0 where
  pub enclosed_name : Option PathBuf
  pub name : PathBuf
  pub is_dir : Bool
  pub content : X

pub record Files (W X E Z : Type 0) : Type 0 where
  pub create_dir_all : PathBuf → Fut W (Result (Unit {0}) E)
  pub open_file : PathBuf → Fut W (Result (Unit {0}) E)
  pub create_file : PathBuf → Fut W (Result (Unit {0}) E)
  -- `io::copy` into the file of a path from the contents under `take` of so many bytes.
  pub copy : X → ℕ → PathBuf → Fut W (Result ℕ E)
  pub copy_at_most : (x : X) (n : ℕ) (p : PathBuf) (w : W) (k : ℕ) → (copy x n p w).0 ≡ ok k → k ≤ n
  -- `Entry::unpack` of the crate tar.
  pub unpack : X → PathBuf → Fut W (Result (Unit {0}) E)
  -- `Archive::entries`, plain and under a `GzDecoder`.
  pub tar_entries : PathBuf → Fut W (Result (List (Result (TarEntry X E) E)) E)
  pub tar_gz_entries : PathBuf → Fut W (Result (List (Result (TarEntry X E) E)) E)
  -- `ZipArchive::new`, and `by_index` of each entry.
  pub zip_entries : PathBuf → Fut W (Result (List (Result (ZipEntry X) Z)) Z)
  -- The contents behind a `GzDecoder`.
  pub gzip_content : PathBuf → X
