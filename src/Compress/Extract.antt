-- ===== src/Compress/Extract.antt =====
-- crates/altair-compress/src: tar.rs, tarball.rs, zip.rs and gzip.rs, where they unpack.
use altair_rs.Prelude.{
  ℕ, ◌+◌, ◌-◌, ◌||◌, Option, none, some, List, [], ◌∷◌, if◌then◌else◌, ltb, leb,
}
use altair_rs.Prelude.Text.{String}
use altair_rs.Prelude.Async.{Fut, Result, ok, err, and_then, map_error}
use altair_rs.Compress.SafePath.{
  PathBuf, Error, io, zip, unsafe_path, decompression_limit, parent, resolve, check_link_target,
}
use altair_rs.Compress.Files.{TarEntry, ZipEntry, Files}

abbrev pub u64_max : ℕ
u64_max = 18446744073709551615

-- `u64::saturating_add`; `saturating_sub` is the subtraction of natural numbers.
abbrev pub saturating_add : ℕ → ℕ → ℕ
saturating_add m n = if leb (m + n) u64_max then m + n else u64_max

abbrev pub default_limit : ℕ
default_limit = 4294967296

abbrev pub required : {A E Z : Type 0} → PathBuf → Option A → Result A (Error E Z)
required path none = err (unsafe_path path)
required path (some a) = ok a

abbrev pub check_named :
    {E Z : Type 0} → PathBuf → Result (Option PathBuf) E → Result (Unit {0}) (Error E Z)
check_named entry_path (err e) = err (unsafe_path entry_path)
check_named entry_path (ok none) = err (unsafe_path entry_path)
check_named entry_path (ok (some link)) = check_link_target entry_path link

-- An error of the file system as one of the crate, in a step.
abbrev pub io_step : {W A E Z : Type 0} → Result A E × W → Result A (Error E Z) × W
io_step x = (map_error io x.0, x.1)

module _ {W X E Z : Type 0} (files : Files W X E Z) where
  unfoldable pub check_entry_links : TarEntry X E → PathBuf → Result (Unit {0}) (Error E Z)
  unfolding check_link_target
  check_entry_links entry entry_path =
      if entry.is_symlink || entry.is_hard_link
      then check_named entry_path entry.link_name
      else ok tt

  unfoldable pub create_parent : Option PathBuf → Fut W (Result (Unit {0}) (Error E Z))
  create_parent none w = (ok tt, w)
  create_parent (some path) w = io_step (files.create_dir_all path w)

  -- The test after a copy.
  abbrev pub within : String → ℕ → ℕ → Result ℕ (Error E Z)
  within kind limit total =
      if ltb limit total then err (decompression_limit limit kind) else ok total

  -- A regular file, the same text in tar.rs and zip.rs; it answers the total written.
  unfoldable pub write_file : String → ℕ → ℕ → X → PathBuf → Fut W (Result ℕ (Error E Z))
  unfolding create_parent parent
  write_file kind limit total content safe_dest w =
      and_then (create_parent (parent safe_dest) w) λ _ w.
        let remaining = limit - total in
        and_then (io_step (files.create_file safe_dest w)) λ _ w.
          and_then (io_step (files.copy content (saturating_add remaining 1) safe_dest w))
            λ written w. (within kind limit (saturating_add total written), w)

  -- The rest of the loop body in tar.rs, at a checked path.
  unfoldable pub unpack_at : ℕ → ℕ → TarEntry X E → PathBuf → Fut W (Result ℕ (Error E Z))
  unfolding write_file
  unpack_at limit total entry safe_dest w =
      if entry.is_file
      then write_file "tar-entry" limit total entry.content safe_dest w
      else and_then (io_step (files.unpack entry.content safe_dest w)) λ _ w. (ok total, w)

  unfoldable pub unpack_entry :
      PathBuf → ℕ → ℕ → Result (TarEntry X E) E → Fut W (Result ℕ (Error E Z))
  unfolding unpack_at check_entry_links resolve
  unpack_entry dest limit total read w =
      and_then (map_error io read, w)
        λ entry w.
          and_then (map_error io entry.path, w)
            λ entry_path w.
              and_then (resolve dest entry_path, w)
                λ safe_dest w.
                  and_then (check_entry_links entry entry_path, w)
                    λ _ w. unpack_at limit total entry safe_dest w

  -- The loop of `unpack_entries`.
  unfoldable pub unpack_loop :
      PathBuf → ℕ → ℕ → List (Result (TarEntry X E) E) → Fut W (Result (Unit {0}) (Error E Z))
  unfolding unpack_entry
  unpack_loop dest limit total [] w = (ok tt, w)
  unpack_loop dest limit total (entry ∷ entries) w =
      and_then (unpack_entry dest limit total entry w)
        λ total w. unpack_loop dest limit total entries w

  unfoldable pub unpack_entries :
      PathBuf
      → ℕ
      → Fut W (Result (List (Result (TarEntry X E) E)) E)
      → Fut W (Result (Unit {0}) (Error E Z))
  unfolding unpack_loop
  unpack_entries dest limit archive w =
      and_then (io_step (archive w)) λ entries w. unpack_loop dest limit 0 entries w

  unfoldable pub untar_with_limit : PathBuf → PathBuf → ℕ → Fut W (Result (Unit {0}) (Error E Z))
  unfolding unpack_entries
  untar_with_limit archive dest limit w = and_then (io_step (files.create_dir_all dest w)) λ _ w.
      and_then (io_step (files.open_file archive w))
        λ _ w. unpack_entries dest limit (files.tar_entries archive) w

  abbrev pub untar : PathBuf → PathBuf → Fut W (Result (Unit {0}) (Error E Z))
  untar archive dest = untar_with_limit archive dest default_limit

  -- tarball.rs.
  unfoldable pub untar_gz_with_limit : PathBuf → PathBuf → ℕ → Fut W (Result (Unit {0}) (Error E Z))
  unfolding unpack_entries
  untar_gz_with_limit archive dest limit w = and_then (io_step (files.create_dir_all dest w)) λ _ w.
      and_then (io_step (files.open_file archive w))
        λ _ w. unpack_entries dest limit (files.tar_gz_entries archive) w

  -- zip.rs.
  unfoldable pub unzip_at : ℕ → ℕ → ZipEntry X → PathBuf → Fut W (Result ℕ (Error E Z))
  unfolding write_file
  unzip_at limit total entry safe_dest w =
      if entry.is_dir
      then and_then (io_step (files.create_dir_all safe_dest w)) (λ _ w. (ok total, w))
      else write_file "zip-entry" limit total entry.content safe_dest w

  unfoldable pub unzip_entry :
      PathBuf → ℕ → ℕ → Result (ZipEntry X) Z → Fut W (Result ℕ (Error E Z))
  unfolding unzip_at resolve
  unzip_entry dest limit total read w =
      and_then (map_error zip read, w)
        λ entry w.
          and_then (required entry.name entry.enclosed_name, w)
            λ entry_path w.
              and_then (resolve dest entry_path, w)
                λ safe_dest w. unzip_at limit total entry safe_dest w

  unfoldable pub unzip_loop :
      PathBuf → ℕ → ℕ → List (Result (ZipEntry X) Z) → Fut W (Result (Unit {0}) (Error E Z))
  unfolding unzip_entry
  unzip_loop dest limit total [] w = (ok tt, w)
  unzip_loop dest limit total (entry ∷ entries) w =
      and_then (unzip_entry dest limit total entry w)
        λ total w. unzip_loop dest limit total entries w

  unfoldable pub unzip_with_limit : PathBuf → PathBuf → ℕ → Fut W (Result (Unit {0}) (Error E Z))
  unfolding unzip_loop
  unzip_with_limit archive dest limit w = and_then (io_step (files.create_dir_all dest w)) λ _ w.
      and_then (io_step (files.open_file archive w)) λ _ w.
        let (entries, w) = files.zip_entries archive w in
        and_then (map_error zip entries, w) λ entries w. unzip_loop dest limit 0 entries w

  -- gzip.rs.
  unfoldable pub decompress_file_with_limit :
      PathBuf → PathBuf → ℕ → Fut W (Result (Unit {0}) (Error E Z))
  decompress_file_with_limit input output limit w =
      and_then (io_step (files.open_file input w)) λ _ w.
        and_then (io_step (files.create_file output w)) λ _ w.
          and_then
            (io_step (files.copy (files.gzip_content input) (saturating_add limit 1) output w))
            λ written w. (
              if ltb limit written then err (decompression_limit limit "gzip-stream") else ok tt,
              w,
            )
