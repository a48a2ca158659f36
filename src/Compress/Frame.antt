-- ===== src/Compress/Frame.antt =====
-- crates/altair-compress/src: which paths the extraction of an archive touches.
use mathlib.Core.Path.{subst}
use altair_rs.Prelude.{
  ℕ, ◌-◌, ◌≡◌, refl, sym, ◌∙◌, ◌⊎◌, inl, inr, false, ◌||◌, Option, none, some, List, [], ◌∷◌,
  Bool-cases,
}
use altair_rs.Prelude.Text.{String}
use altair_rs.Prelude.Async.{Fut, Result, ok, err, and_then, map_error, and_then_elim}
use altair_rs.Compress.SafePath.{
  PathBuf, Error, io, zip, unsafe_path, path_join, parent, resolve, check_link_target,
}
use altair_rs.Compress.Files.{TarEntry, ZipEntry, Files}
use altair_rs.Compress.Extract.{
  required, check_named, io_step, check_entry_links, create_parent, write_file, unpack_at,
  unpack_entry, unpack_loop, unpack_entries, untar_with_limit, unzip_at, unzip_entry, unzip_loop,
  unzip_with_limit, saturating_add,
}
use altair_rs.Compress.Inside.{
  ArePlain, IsInside, IsInside-refl, parent-IsInside, check_components-cases, resolve_lem,
}

-- An entry that is no link, or one whose target has only plain components.
abbrev pub HasSafeLink : {X E : Type 0} → TarEntry X E → Type 0
HasSafeLink entry =
    ((entry.is_symlink || entry.is_hard_link) ≡ false)
    ⊎ ((link : PathBuf) × (entry.link_name ≡ ok (some link)) × ArePlain link)

-- The operations on paths inside of a destination keep something of the state outside, and so do
-- reading, and making the directories above the destination.
pub record IsKept {W X E Z : Type 0} (files : Files W X E Z) (dest : PathBuf) (Holds : W → Type 0)
    : Type 0 where
  pub dirs :
      (p : PathBuf) (w : W)
      → IsInside dest p ⊎ (parent dest ≡ some p)
      → Holds w
      → Holds (files.create_dir_all p w).1
  pub creates : (p : PathBuf) (w : W) → IsInside dest p → Holds w → Holds (files.create_file p w).1
  pub copies :
      (x : X) (n : ℕ) (p : PathBuf) (w : W)
      → IsInside dest p
      → Holds w
      → Holds (files.copy x n p w).1
  pub unpacks :
      (entry : TarEntry X E) (p : PathBuf) (w : W)
      → IsInside dest p
      → HasSafeLink entry
      → Holds w
      → Holds (files.unpack entry.content p w).1
  pub opens : (p : PathBuf) (w : W) → Holds w → Holds (files.open_file p w).1
  pub reads_tar : (p : PathBuf) (w : W) → Holds w → Holds (files.tar_entries p w).1
  pub reads_zip : (p : PathBuf) (w : W) → Holds w → Holds (files.zip_entries p w).1

module _ {W X E Z : Type 0} (files : Files W X E Z) (dest : PathBuf) (Holds : W → Type 0)
    (kept : IsKept files dest Holds) where
  -- A chain of steps keeps what each of them keeps.
  chain_keeps :
      {A B F : Type 0} (x : Result A F × W) (next : A → Fut W (Result B F))
      → Holds x.1
      → ((a : A) → x.0 ≡ ok a → Holds (next a x.1).1)
      → Holds (and_then x next).1
  chain_keeps x next h step = and_then_elim (λ y. Holds y.1) x next step (λ e same. h)

  create_parent_keeps :
      (o : Option PathBuf) (w : W)
      → ((upper : PathBuf) → o ≡ some upper → IsInside dest upper ⊎ (parent dest ≡ some upper))
      → Holds w
      → Holds (create_parent files o w).1
  unfolding create_parent
  create_parent_keeps none w above h = h
  create_parent_keeps (some upper) w above h = kept.dirs upper w (above upper refl) h

  write_file_keeps :
      (kind : String) (limit total : ℕ) (content : X) (p : PathBuf) (w : W)
      → IsInside dest p
      → Holds w
      → Holds (write_file files kind limit total content p w).1
  unfolding write_file
  write_file_keeps kind limit total content p w inside h =
      let w1 = (create_parent files (parent p) w).1 in
      let w2 = (files.create_file p w1).1 in
      let h1 = create_parent_keeps (parent p) w (λ upper. parent-IsInside dest p upper inside) h in
      let h2 = kept.creates p w1 inside h1 in
      chain_keeps (create_parent files (parent p) w) _ h1 λ _ _.
        chain_keeps (io_step (files.create_file p w1)) _ h2 λ _ _.
          chain_keeps (io_step (files.copy content (saturating_add (limit - total) 1) p w2)) _
            (kept.copies content (saturating_add (limit - total) 1) p w2 inside h2)
            (λ _ _. kept.copies content (saturating_add (limit - total) 1) p w2 inside h2)

  unpack_at_keeps :
      (limit total : ℕ) (entry : TarEntry X E) (p : PathBuf) (w : W)
      → IsInside dest p
      → HasSafeLink entry
      → Holds w
      → Holds (unpack_at files limit total entry p w).1
  unfolding unpack_at
  unpack_at_keeps limit total entry p w inside safe h = elim (Bool-cases entry.is_file) [
    | inl file ↦ rw file (write_file_keeps "tar-entry" limit total entry.content p w inside h)
    | inr other ↦
        let h' = kept.unpacks entry p w inside safe h in
        rw other (chain_keeps (io_step (files.unpack entry.content p w)) _ h' (λ _ _. h'))
  ]

  -- The links of an entry that passes the check.
  links_safe :
      (entry : TarEntry X E) (path : PathBuf) (u : Unit {0})
      → check_entry_links files entry path ≡ ok u
      → HasSafeLink entry
  unfolding check_entry_links check_link_target
  links_safe entry path u h = elim (Bool-cases (entry.is_symlink || entry.is_hard_link)) [
    | inr no_link ↦ inl no_link
    | inl link ↦ inr (named entry.link_name (rw link at h))
  ]
    where
      named :
          (o : Result (Option PathBuf) E)
          → check_named {Z = Z} path o ≡ ok u
          → (link : PathBuf) × (o ≡ ok (some link)) × ArePlain link
      named (err e) h = cc
      named (ok none) h = cc
      named (ok (some link)) h = elim (check_components-cases {E = E} {Z = Z} path link) [
        | inl (plain, _) ↦ (link, refl, plain)
        | inr (_, same) ↦ absurd (
            let e : ◌≡◌ {A = Result (Unit {0}) (Error E Z)} (err (unsafe_path path)) (ok u) =
              sym same ∙ h in
            cc)
      ]

  resolved-IsInside :
      (path p : PathBuf) → resolve {E = E} {Z = Z} dest path ≡ ok p → IsInside dest p
  resolved-IsInside path p h = elim (resolve_lem {E = E} {Z = Z} dest path) [
    | inl (plain, same, inside) ↦
        let e : ◌≡◌ {A = Result PathBuf (Error E Z)} (ok (path_join dest path)) (ok p) =
          sym same ∙ h in
        let there : path_join dest path ≡ p = cc in subst (IsInside dest) there inside
    | inr (_, same) ↦ absurd (
        let e : ◌≡◌ {A = Result PathBuf (Error E Z)} (err (unsafe_path path)) (ok p) =
          sym same ∙ h in
        cc)
  ]

  unpack_entry_keeps :
      (limit total : ℕ) (read : Result (TarEntry X E) E) (w : W)
      → Holds w
      → Holds (unpack_entry files dest limit total read w).1
  unfolding unpack_entry
  unpack_entry_keeps limit total read w h =
      chain_keeps (map_error io read, w) _ h
        λ entry _.
          chain_keeps (map_error io entry.path, w) _ h
            λ path _.
              chain_keeps (resolve dest path, w) _ h
                λ safe_dest resolved.
                  chain_keeps (check_entry_links files entry path, w) _ h
                    λ u checked.
                      unpack_at_keeps limit total entry safe_dest w
                        (resolved-IsInside path safe_dest resolved)
                        (links_safe entry path u checked) h

  unpack_loop_keeps :
      (limit total : ℕ) (entries : List (Result (TarEntry X E) E)) (w : W)
      → Holds w
      → Holds (unpack_loop files dest limit total entries w).1
  unfolding unpack_loop
  unpack_loop_keeps limit total [] w h = h
  unpack_loop_keeps limit total (entry ∷ entries) w h =
      chain_keeps (unpack_entry files dest limit total entry w) _
        (unpack_entry_keeps limit total entry w h)
        λ total' _.
          unpack_loop_keeps limit total' entries _ (unpack_entry_keeps limit total entry w h)

  -- Whatever the archive holds, `untar_with_limit` keeps what is kept by operations on paths inside of
  -- the destination, by unpacking there entries whose links have only plain components, by reading, and
  -- by making the directory above the destination.
  pub untar_keeps :
      (archive : PathBuf) (limit : ℕ) (w : W)
      → Holds w
      → Holds (untar_with_limit files archive dest limit w).1
  unfolding untar_with_limit unpack_entries
  untar_keeps archive limit w h =
      let w1 = (files.create_dir_all dest w).1 in
      let w2 = (files.open_file archive w1).1 in
      let h1 = kept.dirs dest w (inl (IsInside-refl dest)) h in
      let h2 = kept.opens archive w1 h1 in
      let h3 = kept.reads_tar archive w2 h2 in
      chain_keeps (io_step (files.create_dir_all dest w)) _ h1 λ _ _.
        chain_keeps (io_step (files.open_file archive w1)) _ h2 λ _ _.
          chain_keeps (io_step (files.tar_entries archive w2)) _ h3
            λ entries _. unpack_loop_keeps limit 0 entries (files.tar_entries archive w2).1 h3

  unzip_at_keeps :
      (limit total : ℕ) (entry : ZipEntry X) (p : PathBuf) (w : W)
      → IsInside dest p
      → Holds w
      → Holds (unzip_at files limit total entry p w).1
  unfolding unzip_at
  unzip_at_keeps limit total entry p w inside h = elim (Bool-cases entry.is_dir) [
    | inr file ↦ rw file (write_file_keeps "zip-entry" limit total entry.content p w inside h)
    | inl dir ↦
        let h' = kept.dirs p w (inl inside) h in
        rw dir (chain_keeps (io_step (files.create_dir_all p w)) _ h' (λ _ _. h'))
  ]

  unzip_entry_keeps :
      (limit total : ℕ) (read : Result (ZipEntry X) Z) (w : W)
      → Holds w
      → Holds (unzip_entry files dest limit total read w).1
  unfolding unzip_entry
  unzip_entry_keeps limit total read w h =
      chain_keeps (map_error zip read, w) _ h
        λ entry _.
          chain_keeps (required entry.name entry.enclosed_name, w) _ h
            λ path _.
              chain_keeps (resolve dest path, w) _ h
                λ safe_dest resolved.
                  unzip_at_keeps limit total entry safe_dest w
                    (resolved-IsInside path safe_dest resolved) h

  unzip_loop_keeps :
      (limit total : ℕ) (entries : List (Result (ZipEntry X) Z)) (w : W)
      → Holds w
      → Holds (unzip_loop files dest limit total entries w).1
  unfolding unzip_loop
  unzip_loop_keeps limit total [] w h = h
  unzip_loop_keeps limit total (entry ∷ entries) w h =
      chain_keeps (unzip_entry files dest limit total entry w) _
        (unzip_entry_keeps limit total entry w h)
        λ total' _.
          unzip_loop_keeps limit total' entries _ (unzip_entry_keeps limit total entry w h)

  -- Whatever the archive holds, `unzip_with_limit` keeps what is kept by operations on paths inside of
  -- the destination, by reading, and by making the directory above the destination.
  pub unzip_keeps :
      (archive : PathBuf) (limit : ℕ) (w : W)
      → Holds w
      → Holds (unzip_with_limit files archive dest limit w).1
  unfolding unzip_with_limit
  unzip_keeps archive limit w h =
      let w1 = (files.create_dir_all dest w).1 in
      let w2 = (files.open_file archive w1).1 in
      let w3 = (files.zip_entries archive w2).1 in
      let h1 = kept.dirs dest w (inl (IsInside-refl dest)) h in
      let h2 = kept.opens archive w1 h1 in
      let h3 = kept.reads_zip archive w2 h2 in
      chain_keeps (io_step (files.create_dir_all dest w)) _ h1 λ _ _.
        chain_keeps (io_step (files.open_file archive w1)) _ h2 λ _ _.
          chain_keeps (map_error zip (files.zip_entries archive w2).0, w3) _ h3
            λ entries _. unzip_loop_keeps limit 0 entries w3 h3
