-- ===== src/Compress/Tests.antt =====
-- Runs of crates/altair-compress/src, and its theorems at a concrete input. The outside state is the
-- number of bytes copied and the paths of the files made; the contents of an entry are its size.
use altair_rs.Prelude.{
  ℕ, ◌+◌, ◌≤◌, ◌≡◌, refl, true, false, none, some, List, [], ◌∷◌, All, leb, if◌then◌else◌, arith,
}
use altair_rs.Prelude.Text.{String}
use altair_rs.Prelude.Async.{Result, ok, err}
use altair_rs.Compress.SafePath.{
  PathBuf, root_dir, parent_dir, normal, unsafe_path, decompression_limit, path_join, parent,
}
use altair_rs.Compress.Files.{TarEntry, ZipEntry, Files}
use altair_rs.Compress.Extract.{untar_with_limit, unzip_with_limit}
use altair_rs.Compress.Inside.{IsInside}
use altair_rs.Compress.Frame.{IsKept, untar_keeps}
use altair_rs.Compress.Bytes.{IsCounter, IsBounded, untar-IsBounded}

abbrev Disk : Type 0
Disk = ℕ × List PathBuf

abbrev at_most : ℕ → ℕ → ℕ
at_most n x = if leb x n then x else n

at_most_le : (n x k : ℕ) → ◌≡◌ {A = Result ℕ String} (ok (at_most n x)) (ok k) → k ≤ n
at_most_le n x k h = let e : at_most n x ≡ k = cc in ground (arith, e)

abbrev file : PathBuf → ℕ → TarEntry ℕ String
file path size = record {
  path = ok path;
  is_file = true;
  is_symlink = false;
  is_hard_link = false;
  link_name = ok none;
  content = size;
}

abbrev slip : List (Result (TarEntry ℕ String) String)
slip = ok (file (normal "a" ∷ normal "b" ∷ []) 3) ∷ ok (file (parent_dir ∷ normal "c" ∷ []) 3) ∷ []

abbrev zipped : ZipEntry ℕ
zipped = record {
  enclosed_name = some (normal "a" ∷ []);
  name = normal "a" ∷ [];
  is_dir = false;
  content = 9;
}

abbrev disk : Files Disk ℕ String String
disk = record {
  create_dir_all = λ p w. (ok tt, w);
  open_file = λ p w. (ok tt, w);
  create_file = λ p w. (ok tt, (w.0, p ∷ w.1));
  copy = λ x n p w. (ok (at_most n x), (w.0 + at_most n x, w.1));
  copy_at_most = λ x n p w k h. at_most_le n x k h;
  unpack = λ x p w. (ok tt, (w.0, p ∷ w.1));
  tar_entries = λ p w. (ok slip, w);
  tar_gz_entries = λ p w. (ok [], w);
  zip_entries = λ p w. (ok (ok zipped ∷ []), w);
  gzip_content = λ p. 5;
}

abbrev dest : PathBuf
dest = root_dir ∷ normal "out" ∷ []

abbrev here : PathBuf
here = normal "x" ∷ []

refused : untar_with_limit disk here dest 100 (0, []) ≡ (
  err (unsafe_path (parent_dir ∷ normal "c" ∷ [])),
  (3, (root_dir ∷ normal "out" ∷ normal "a" ∷ normal "b" ∷ []) ∷ []),
)
unfolding untar_with_limit parent path_join
refused = refl

too_large : (unzip_with_limit disk here dest 7 (0, [])).0 ≡ err (decompression_limit 7 "zip-entry")
unfolding unzip_with_limit parent path_join
too_large = refl

-- The files that are made are inside of the destination.
abbrev AllInside : Disk → Type 0
AllInside w = All (IsInside dest) w.1

inside_kept : IsKept disk dest AllInside
inside_kept = record {
  dirs = λ p w above h. h;
  creates = λ p w inside h. (inside, h);
  copies = λ x n p w inside h. h;
  unpacks = λ entry p w inside safe h. (inside, h);
  opens = λ p w h. h;
  reads_tar = λ p w h. h;
  reads_zip = λ p w h. h;
}

untar_keeps_example : AllInside (untar_with_limit disk here dest 100 (0, [])).1
untar_keeps_example = untar_keeps disk dest AllInside inside_kept here 100 (0, []) tt

same_count :
    (n x k : ℕ) (w : ℕ)
    → ◌≡◌ {A = Result ℕ String} (ok (at_most n x)) (ok k)
    → w + at_most n x ≡ w + k
same_count n x k w h = let e : at_most n x ≡ k = cc in rw e

at_most_small : (n x w : ℕ) → w + at_most n x ≤ w + n
at_most_small n x w = ground arith

bytes_counted : IsCounter disk (λ w. w.0)
bytes_counted = record {
  copied_ok = λ x n p w k h. same_count n x k w.0 h;
  copied = λ x n p w. at_most_small n x w.0;
  dirs = λ p w. refl;
  opens = λ p w. refl;
  creates = λ p w. refl;
  unpacked = λ x. 0;
  unpacks = λ x p w. omega arith;
  reads_tar = λ p w. refl;
}

untar-IsBounded_example :
    IsBounded disk (λ w. w.0) bytes_counted 2 0 (untar_with_limit disk here dest 2 (0, []))
untar-IsBounded_example =
    untar-IsBounded disk (λ w. w.0) bytes_counted 2 here dest (0, []) (omega arith)
