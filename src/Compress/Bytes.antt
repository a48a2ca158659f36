-- ===== src/Compress/Bytes.antt =====
-- crates/altair-compress/src: how many bytes the extraction of an archive copies.
use mathlib.Core.Path.{subst}
use altair_rs.Prelude.{
  ℕ, ◌+◌, ◌-◌, ◌<◌, ◌≤◌, ◌≡◌, refl, ◌∙◌, ◌⊎◌, inl, inr, Option, none, some, List, [], ◌∷◌, Bool,
  true, false, Bool-cases, ltb, arith,
}
use altair_rs.Prelude.Text.{String}
use altair_rs.Prelude.Async.{Result, ok, err, and_then, map_error, and_then_elim, ok_of_map_error}
use altair_rs.Compress.SafePath.{PathBuf, Error, io, decompression_limit, parent, resolve}
use altair_rs.Compress.Files.{TarEntry, Files}
use altair_rs.Compress.Extract.{
  u64_max, io_step, check_entry_links, create_parent, within, write_file, unpack_at, unpack_entry,
  unpack_loop, unpack_entries, untar_with_limit, saturating_add,
}

-- A counter of the bytes that are written into files: by a copy, and by `Entry::unpack`.
pub record IsCounter {W X E Z : Type 0} (files : Files W X E Z) (bytes : W → ℕ) : Type 0 where
  pub copied_ok :
      (x : X) (n : ℕ) (p : PathBuf) (w : W) (k : ℕ)
      → (files.copy x n p w).0 ≡ ok k
      → bytes (files.copy x n p w).1 ≡ bytes w + k
  pub copied : (x : X) (n : ℕ) (p : PathBuf) (w : W) → bytes (files.copy x n p w).1 ≤ bytes w + n
  pub dirs : (p : PathBuf) (w : W) → bytes (files.create_dir_all p w).1 ≡ bytes w
  pub opens : (p : PathBuf) (w : W) → bytes (files.open_file p w).1 ≡ bytes w
  pub creates : (p : PathBuf) (w : W) → bytes (files.create_file p w).1 ≡ bytes w
  -- What `Entry::unpack` writes at most of some contents: nothing of links, directories and devices,
  -- but the data of contiguous and of sparse files.
  pub unpacked : X → ℕ
  pub unpacks : (x : X) (p : PathBuf) (w : W) → bytes (files.unpack x p w).1 ≤ bytes w + unpacked x
  pub reads_tar : (p : PathBuf) (w : W) → bytes (files.tar_entries p w).1 ≡ bytes w

saturating_add_le : (m : ℕ) → saturating_add m 1 ≤ m + 1
saturating_add_le m = ground arith

module _ {W X E Z : Type 0} (files : Files W X E Z) (bytes : W → ℕ)
    (counter : IsCounter files bytes) (limit : ℕ) where
  -- The bytes that `Entry::unpack` writes: those of the entries that are no regular files.
  abbrev pub past_cap : Bool → X → ℕ
  past_cap true x = 0
  past_cap false x = counter.unpacked x

  abbrev pub past_cap_of : Result (TarEntry X E) E → ℕ
  past_cap_of (err e) = 0
  past_cap_of (ok entry) = past_cap entry.is_file entry.content

  abbrev pub past_cap_all : List (Result (TarEntry X E) E) → ℕ
  past_cap_all [] = 0
  past_cap_all (entry ∷ entries) = past_cap_of entry + past_cap_all entries

  abbrev pub past_cap_listed : Result (List (Result (TarEntry X E) E)) E → ℕ
  past_cap_listed (err e) = 0
  past_cap_listed (ok entries) = past_cap_all entries

  -- From so many bytes, a step answers a total within the limit that accounts for what has been
  -- written, or fails with at most one byte more than the limit written.
  abbrev IsCapped : ℕ → Result ℕ (Error E Z) × W → Type 0
  IsCapped start answer =
      ((total : ℕ) × (answer.0 ≡ ok total) × (bytes answer.1 ≤ start + total) × (total ≤ limit))
      ⊎ ((e : Error E Z) × (answer.0 ≡ err e) × (bytes answer.1 ≤ start + (limit + 1)))

  failed_early :
      (start total : ℕ) (w : W) (e : Error E Z)
      → bytes w ≤ start + total
      → total ≤ limit
      → IsCapped start (err e, w)
  failed_early start total w e count small = inr (e, refl, omega (arith, count, small))

  within_lem :
      (kind : String) (start total k : ℕ) (w : W)
      → limit < u64_max
      → total ≤ limit
      → k ≤ saturating_add (limit - total) 1
      → bytes w ≤ start + total + k
      → IsCapped start (within files kind limit (saturating_add total k), w)
  within_lem kind start total k w room small few count =
      let sum : saturating_add total k ≡ total + k = ground (arith, room, small, few) in
      elim (Bool-cases (ltb limit (total + k))) [
        | inl over ↦
            rw (sum, over)
              (inr (
                decompression_limit limit kind,
                refl,
                omega (arith, saturating_add_le (limit - total), few, small, count),
              ))
        | inr fits ↦
            rw (sum, fits) (inl (total + k, refl, omega (arith, count), ground (arith, fits)))
      ]

  create_parent-bytes : (o : Option PathBuf) (w : W) → bytes (create_parent files o w).1 ≡ bytes w
  unfolding create_parent
  create_parent-bytes none w = refl
  create_parent-bytes (some p) w = counter.dirs p w

  write_file-IsCapped :
      (kind : String) (start total : ℕ) (content : X) (p : PathBuf) (w : W)
      → limit < u64_max
      → total ≤ limit
      → bytes w ≤ start + total
      → IsCapped start (write_file files kind limit total content p w)
  unfolding write_file
  write_file-IsCapped kind start total content p w room small count =
      let n = saturating_add (limit - total) 1 in
      let w1 = (create_parent files (parent p) w).1 in
      let w2 = (files.create_file p w1).1 in
      let w3 = (files.copy content n p w2).1 in
      let c1 : bytes w1 ≤ start + total = rw (create_parent-bytes (parent p) w) count in
      let c2 : bytes w2 ≤ start + total = rw (counter.creates p w1) c1 in
      let few : n ≤ limit - total + 1 = saturating_add_le (limit - total) in
      and_then_elim (IsCapped start) (create_parent files (parent p) w) _
        (λ _ _.
          and_then_elim (IsCapped start) (io_step (files.create_file p w1)) _
            (λ _ _.
              and_then_elim (IsCapped start) (io_step (files.copy content n p w2)) _
                (λ k done.
                  let done' = ok_of_map_error io (files.copy content n p w2).0 k done in
                  within_lem kind start total k w3 room small
                    (files.copy_at_most content n p w2 k done')
                    (omega (arith, counter.copied_ok content n p w2 k done', c2)))
                (λ e _.
                  inr (e, refl, omega (arith, counter.copied content n p w2, c2, few, small))))
            (λ e _. failed_early start total w2 e c2 small))
        (λ e _. failed_early start total w1 e c1 small)

  widened :
      (start more : ℕ) (answer : Result ℕ (Error E Z) × W)
      → IsCapped start answer
      → IsCapped (start + more) answer
  widened start more answer (inl (total, done, count, small)) =
      inl (total, done, omega (arith, count), small)
  widened start more answer (inr (e, failed, count)) = inr (e, failed, omega (arith, count))

  unpack_at-IsCapped :
      (start total : ℕ) (entry : TarEntry X E) (p : PathBuf) (w : W)
      → limit < u64_max
      → total ≤ limit
      → bytes w ≤ start + total
      → IsCapped (start + past_cap_of (ok entry)) (unpack_at files limit total entry p w)
  unfolding unpack_at
  unpack_at-IsCapped start total entry p w room small count = elim (Bool-cases entry.is_file) [
    | inl file ↦
        let kept = write_file-IsCapped "tar-entry" start total entry.content p w room small count in
        rw file (widened start 0 _ kept)
    | inr other ↦
        let c : bytes (files.unpack entry.content p w).1
            ≤ start + counter.unpacked entry.content + total =
          omega (arith, counter.unpacks entry.content p w, count) in
        rw other (
          and_then_elim (IsCapped (start + counter.unpacked entry.content))
            (io_step (files.unpack entry.content p w)) _ (λ _ _. inl (total, refl, c, small))
            (λ e _.
              failed_early (start + counter.unpacked entry.content) total
                (files.unpack entry.content p w).1 e c small))
  ]

  unpack_entry-IsCapped :
      (dest : PathBuf) (start total : ℕ) (read : Result (TarEntry X E) E) (w : W)
      → limit < u64_max
      → total ≤ limit
      → bytes w ≤ start + total
      → IsCapped (start + past_cap_of read) (unpack_entry files dest limit total read w)
  unfolding unpack_entry
  unpack_entry-IsCapped dest start total (err e) w room small count =
      widened start 0 _ (failed_early start total w (io e) count small)
  unpack_entry-IsCapped dest start total (ok entry) w room small count =
      let budget = start + past_cap_of (ok entry) in
      let early : (e : Error E Z) → IsCapped budget (err e, w) =
        λ e. widened start (past_cap_of (ok entry)) _ (failed_early start total w e count small) in
      and_then_elim (IsCapped budget) (map_error io entry.path, w) _
        (λ path _.
          and_then_elim (IsCapped budget) (resolve dest path, w) _
            (λ p _.
              and_then_elim (IsCapped budget) (check_entry_links files entry path, w) _
                (λ _ _. unpack_at-IsCapped start total entry p w room small count) (λ e _. early e))
            (λ e _. early e))
        (λ e _. early e)

  -- The answer of an extraction that starts with so many bytes.
  abbrev pub IsBounded : ℕ → Result (Unit {0}) (Error E Z) × W → Type 0
  IsBounded start answer =
      ((answer.0 ≡ ok tt) × (bytes answer.1 ≤ start + limit))
      ⊎ ((e : Error E Z) × (answer.0 ≡ err e) × (bytes answer.1 ≤ start + (limit + 1)))

  unpack_loop-IsBounded :
      (dest : PathBuf) (start total : ℕ) (entries : List (Result (TarEntry X E) E)) (w : W)
      → limit < u64_max
      → total ≤ limit
      → bytes w ≤ start + total
      → IsBounded (start + past_cap_all entries) (unpack_loop files dest limit total entries w)
  unfolding unpack_loop
  unpack_loop-IsBounded dest start total [] w room small count =
      inl (refl, omega (arith, count, small))
  unpack_loop-IsBounded dest start total (entry ∷ entries) w room small count =
      let step = unpack_entry files dest limit total entry w in
      elim (unpack_entry-IsCapped dest start total entry w room small count) [
        | inl (total', same, count', small') ↦ next step total' same (
            regrouped _ (
              unpack_loop-IsBounded dest (start + past_cap_of entry) total' entries step.1 room
                small' count'))
        | inr (e, same, few) ↦ stop step e same (omega (arith, few))
      ]
    where
      regrouped :
          (answer : Result (Unit {0}) (Error E Z) × W)
          → IsBounded (start + past_cap_of entry + past_cap_all entries) answer
          → IsBounded (start + past_cap_all (entry ∷ entries)) answer
      regrouped answer (inl (done, count)) = inl (done, omega (arith, count))
      regrouped answer (inr (e, failed, count)) = inr (e, failed, omega (arith, count))

      next :
          (x : Result ℕ (Error E Z) × W) (n : ℕ)
          → x.0 ≡ ok n
          → IsBounded
              (start + past_cap_all (entry ∷ entries))
              (unpack_loop files dest limit n entries x.1)
          → IsBounded
              (start + past_cap_all (entry ∷ entries))
              (and_then x (λ total w. unpack_loop files dest limit total entries w))
      next (ok m, w) n same h =
          let e : n ≡ m = cc in
          subst
            (λ k.
              IsBounded (start + past_cap_all (entry ∷ entries))
                (unpack_loop files dest limit k entries w))
            e h
      next (err e, w) n same h = cc

      stop :
          (x : Result ℕ (Error E Z) × W) (e : Error E Z)
          → x.0 ≡ err e
          → bytes x.1 ≤ (start + past_cap_all (entry ∷ entries)) + (limit + 1)
          → IsBounded
              (start + past_cap_all (entry ∷ entries))
              (and_then x (λ total w. unpack_loop files dest limit total entries w))
      stop (ok m, w) e same few = cc
      stop (err e', w) e same few = inr (e', refl, few)

  -- With a limit below the largest `u64`, and whatever the archive holds, `untar_with_limit`
  -- succeeds with at most so many bytes written as the limit says, or fails with at most one byte
  -- more, apart from the bytes that `Entry::unpack` writes of entries that are no regular files,
  -- which the limit does not count.
  pub untar-IsBounded :
      (archive dest : PathBuf) (w : W)
      → limit < u64_max
      → let opened = (files.open_file archive (files.create_dir_all dest w).1).1 in
        IsBounded
          (bytes w + past_cap_listed (files.tar_entries archive opened).0)
          (untar_with_limit files archive dest limit w)
  unfolding untar_with_limit unpack_entries
  untar-IsBounded archive dest w room =
      let w1 = (files.create_dir_all dest w).1 in
      let w2 = (files.open_file archive w1).1 in
      let w3 = (files.tar_entries archive w2).1 in
      let more = past_cap_listed (files.tar_entries archive w2).0 in
      let c1 : bytes w1 ≡ bytes w = counter.dirs dest w in
      let c2 : bytes w2 ≡ bytes w = counter.opens archive w1 ∙ c1 in
      let c3 : bytes w3 ≡ bytes w = counter.reads_tar archive w2 ∙ c2 in
      and_then_elim (IsBounded (bytes w + more)) (io_step (files.create_dir_all dest w)) _
        (λ _ _.
          and_then_elim (IsBounded (bytes w + more)) (io_step (files.open_file archive w1)) _
            (λ _ _.
              and_then_elim (IsBounded (bytes w + more)) (io_step (files.tar_entries archive w2)) _
                (λ entries read.
                  let listed = ok_of_map_error io (files.tar_entries archive w2).0 entries read in
                  let same : past_cap_all entries ≡ more = rw listed refl in
                  subst (λ n. IsBounded (bytes w + n) (unpack_loop files dest limit 0 entries w3))
                    same
                    (unpack_loop-IsBounded dest (bytes w) 0 entries w3 room (omega arith)
                      (omega (arith, c3))))
                (λ e _. inr (e, refl, omega (arith, c3))))
            (λ e _. inr (e, refl, omega (arith, c2))))
        (λ e _. inr (e, refl, omega (arith, c1)))
