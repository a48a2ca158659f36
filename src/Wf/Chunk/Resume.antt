-- ===== src/Wf/Chunk/Resume.antt =====
-- crates/altair-wf/src/datasync/chunk/sync.rs and tracker.rs: the cursor as the boundary at which
-- the next execution resumes.
use mathlib.Core.Path.{subst}
use altair_rs.Prelude.{
  ℕ, ◌≡◌, sym, ap, ◌∙◌, inl, inr, Bool, Option, some, List, [], ◌∷◌, ◌++◌, ◌==◌, ◌&&◌, ◌||◌, not,
  is_empty, Bool-cases,
}
use altair_rs.Prelude.Order.{TotalOrder}
use altair_rs.Wf.Error.{Error, Result, ok, err}
use altair_rs.Wf.Futures.{Fut}
use altair_rs.Wf.Chunk.{
  Partition, PartitionResult, ChunkedSyncConfig, Cursor, with_cursor, filtered, advanced, paused,
}
use altair_rs.Wf.Chunk.Ordered.{IsOrdered, last_end, keeps_last, filtered-suffix}
use altair_rs.Wf.Chunk.Steps.{Handled, Steps, StopsAt}

-- A `ProgressTracker` behind the cursor's closures: `at` is the key that it has recorded, reading
-- answers it and changes nothing, an advance records its key or fails and records nothing, and
-- neither a partition nor a pause touches it.
pub record Tracker {W K : Type 0} (run_partition : Partition K → Fut W (Result (PartitionResult K)))
    (sleeper : ℕ → Fut W (Unit {0})) : Type 0 where
  pub at : W → Option K
  pub read : Fut W (Result (Option K))
  pub advance : K → Fut W (Result (Unit {0}))
  pub read_lem : (w : W) → read w ≡ (ok (at w), w)
  pub advance_ok : (k : K) (w w' : W) → advance k w ≡ (ok tt, w') → at w' ≡ some k
  pub advance_err : (k : K) (w w' : W) (e : Error) → advance k w ≡ (err e, w') → at w' ≡ at w
  pub run_apart : (p : Partition K) (w : W) → at (run_partition p w).1 ≡ at w
  pub sleep_apart : (d : ℕ) (w : W) → at (sleeper d w).1 ≡ at w

module _ {W K : Type 0} ⦃order : TotalOrder K⦄ (config : ChunkedSyncConfig)
    (run_partition : Partition K → Fut W (Result (PartitionResult K)))
    (sleeper : ℕ → Fut W (Unit {0})) (tracker : Tracker run_partition sleeper) where
  abbrev pub tracked : Cursor W K
  tracked = with_cursor tracker.read tracker.advance

  at-paused : (more : Bool) (w : W) → tracker.at (paused config sleeper more w) ≡ tracker.at w
  unfolding paused
  at-paused more w = elim (Bool-cases (more && not (config.partition_sleep == 0))) [
    | inl sleeps ↦ rw sleeps (tracker.sleep_apart config.partition_sleep w)
    | inr goes_on ↦ rw goes_on
  ]

  -- A handled partition leaves its end in the tracker.
  at-Handled :
      (p : Partition K) (more : Bool) (w : W) (r : PartitionResult K) (w' : W)
      → Handled config run_partition tracked sleeper p more w r w'
      → tracker.at w' ≡ some p.end
  unfolding advanced
  at-Handled p more w r w' h =
      ap tracker.at h.pause
      ∙ at-paused more h.recorded
      ∙ tracker.advance_ok p.end h.ran h.recorded h.advance_ok

  -- Handled partitions leave the last end, or what stood there before.
  at-Steps :
      (more : Bool) (k : K) (done : List (Partition K)) (w : W) (rs : List (PartitionResult K))
      (w' : W)
      → tracker.at w ≡ some k
      → Steps config run_partition tracked sleeper more done w rs w'
      → tracker.at w' ≡ some (last_end k done)
  unfolding Steps
  at-Steps more k [] w [] w' h e = ap tracker.at (sym e) ∙ h
  at-Steps more k [] w (r ∷ rs) w' h e = elim e [ ]
  at-Steps more k (p ∷ done) w [] w' h e = elim e [ ]
  at-Steps more k (p ∷ done) w (r ∷ rs) w' h (mid, handled, steps) =
      at-Steps more p.end done mid rs w'
        (at-Handled p (more || not (is_empty done)) w r mid handled) steps

  -- A partition that stops the loop leaves the tracker alone.
  pub at-StopsAt :
      (p : Partition K) (w : W) (e : Error) (w' : W)
      → StopsAt config run_partition tracked sleeper p w e w'
      → tracker.at w' ≡ tracker.at w
  unfolding advanced
  at-StopsAt p w e w' (inl failed) = ap (λ x. tracker.at x.1) (sym failed) ∙ tracker.run_apart p w
  at-StopsAt p w e w' (inr (r, ran, ran_ok, refused)) =
      tracker.advance_err p.end ran w' e refused
      ∙ ap (λ x. tracker.at x.1) (sym ran_ok)
      ∙ tracker.run_apart p w

  -- After the partitions `done` exactly those after them are left.
  pub Steps-resume :
      (all done rest : List (Partition K)) (more : Bool) (w : W) (rs : List (PartitionResult K))
      (w' : W)
      → IsOrdered all
      → filtered (tracker.at w) all ≡ done ++ rest
      → Steps config run_partition tracked sleeper more done w rs w'
      → filtered (tracker.at w') all ≡ rest
  unfolding Steps
  Steps-resume all [] rest more w [] w' ordered left e =
      ap (λ x. filtered (tracker.at x) all) (sym e) ∙ left
  Steps-resume all [] rest more w (r ∷ rs) w' ordered left e = elim e [ ]
  Steps-resume all (p ∷ done) rest more w [] w' ordered left e = elim e [ ]
  Steps-resume all (p ∷ done) rest more w (r ∷ rs) w' ordered left (mid, handled, steps) =
      let (before, split) = filtered-suffix (tracker.at w) all ordered in
      let whole : all ≡ before ++ (p ∷ (done ++ rest)) = split ∙ ap (λ l. before ++ l) left in
      let stands : tracker.at w' ≡ some (last_end p.end done) =
        at-Steps more p.end done mid rs w'
          (at-Handled p (more || not (is_empty done)) w r mid handled) steps in
      ap (λ c. filtered c all) stands
      ∙ ap (λ l. filtered (some (last_end p.end done)) l) whole
      ∙ keeps_last before p done rest (subst IsOrdered whole ordered)
