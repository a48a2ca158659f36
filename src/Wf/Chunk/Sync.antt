-- ===== src/Wf/Chunk/Sync.antt =====
-- crates/altair-wf/src/datasync/chunk/sync.rs: one execution of `chunked_sync_run` against the
-- tracker behind its cursor.
use mathlib.Core.Path.{subst}
use mathlib.Core.List.{append_assoc}
use altair_rs.Prelude.{
  ℕ, ◌≡◌, refl, sym, ap, ◌∙◌, ◌⊎◌, inl, inr, Bool, true, false, Option, none, some, List, [], ◌∷◌,
  ◌++◌, ◌&&◌, not, is_empty, ltb, arith,
}
use altair_rs.Prelude.Order.{TotalOrder}
use altair_rs.Wf.Error.{Error, Result, ok, err}
use altair_rs.Wf.Futures.{Fut}
use altair_rs.Wf.Chunk.{
  Partition, PartitionResult, ChunkedSyncSummary, ChunkedSyncConfig, empty_summary, filtered,
  is_deferred, truncated, chunk_loop, after_cursor, run_parts, run_left, run_listed,
  chunked_sync_run,
}
use altair_rs.Wf.Chunk.Ordered.{IsOrdered}
use altair_rs.Wf.Chunk.Steps.{StopsAt, Steps, Completed, Interrupted, chunk_loop-cases}
use altair_rs.Wf.Chunk.Totals.{summary_of, add_results_lem}
use altair_rs.Wf.Chunk.Resume.{Tracker, tracked, at-StopsAt, Steps-resume}
use altair_rs.Wf.Chunk.Truncation.{
  beyond, first_of, truncated-beyond, is_deferred-beyond, truncated_lem,
}

module _ {W K : Type 0} ⦃order : TotalOrder K⦄ (config : ChunkedSyncConfig)
    (run_partition : Partition K → Fut W (Result (PartitionResult K)))
    (sleeper : ℕ → Fut W (Unit {0})) (tracker : Tracker run_partition sleeper) where
  -- An execution that starts in `w` with the partitions `left`: it handles `done`, the first of
  -- them, and leaves `rest`; it succeeds with the summary of `done`, up to the cap, or fails
  -- with the error of the first of `rest`.
  abbrev pub Handles :
      W
      → List (Partition K)
      → List (Partition K)
      → List (Partition K)
      → Result (ChunkedSyncSummary K)
      → Type 0
  Handles w left done rest answer =
      (left ≡ done ++ rest)
      × ((more : Bool) × (rs : List (PartitionResult K)) × (mid : W) × Steps config run_partition
            (tracked config run_partition sleeper tracker) sleeper more done w rs mid
          × (((answer ≡ ok (summary_of config.job_name (not (is_empty rest)) rs))
                × (done ≡ first_of config.max_partitions_per_execution left))
              ⊎ ((e : Error) × (p : Partition K) × (later : List (Partition K)) × (w' : W) × (rest
                    ≡ p ∷ later)
                  × StopsAt config run_partition (tracked config run_partition sleeper tracker)
                      sleeper p mid e w'
                  × (answer ≡ err e))))

  -- The answer and the state after it: what is left then is what the next execution starts with.
  abbrev pub Resumes :
      List (Partition K) → W → List (Partition K) → Result (ChunkedSyncSummary K) × W → Type 0
  Resumes all w left x =
      (done : List (Partition K)) × (rest : List (Partition K)) × Handles w left done rest x.0
      × (filtered (tracker.at x.1) all ≡ rest)

  run_parts-Completed :
      (all left : List (Partition K)) (w : W)
      → IsOrdered all
      → filtered (tracker.at w) all ≡ left
      → let cursor = tracked config run_partition sleeper tracker in
        let parts = truncated config.max_partitions_per_execution left in
        let start = empty_summary config.job_name in
        Completed config run_partition cursor sleeper parts start w
          (chunk_loop config run_partition cursor sleeper parts start w)
        → Resumes all w left (
            run_parts config run_partition
              (tracked config run_partition sleeper tracker)
              sleeper
              left
              w)
  unfolding run_parts
  run_parts-Completed all left w ordered start (rs, w', steps, answer) =
      let cap = config.max_partitions_per_execution in
      (
        truncated cap left,
        beyond cap left,
        (
          sym (truncated-beyond cap left),
          (
            false,
            rs,
            w',
            steps,
            inl (
              rw answer (
                  ap ok (
                    add_results_lem config.job_name (is_deferred cap left) rs
                    ∙ ap (λ b. summary_of config.job_name b rs) (is_deferred-beyond cap left))),
              truncated_lem cap left,
            ),
          ),
        ),
        rw answer (
            Steps-resume config run_partition sleeper tracker all (truncated cap left)
              (beyond cap left) false w rs w' ordered (start ∙ sym (truncated-beyond cap left))
              steps),
      )

  run_parts-Interrupted :
      (all left : List (Partition K)) (w : W)
      → IsOrdered all
      → filtered (tracker.at w) all ≡ left
      → let cursor = tracked config run_partition sleeper tracker in
        let parts = truncated config.max_partitions_per_execution left in
        Interrupted config run_partition cursor sleeper parts w
          (chunk_loop config run_partition cursor sleeper parts (empty_summary config.job_name) w)
        → Resumes all w left (
            run_parts config run_partition
              (tracked config run_partition sleeper tracker)
              sleeper
              left
              w)
  unfolding run_parts
  run_parts-Interrupted all left w ordered start
        (done, p, later, rs, mid, e, w', split, steps, stop, answer) =
      let cap = config.max_partitions_per_execution in
      let whole : left ≡ done ++ (p ∷ (later ++ beyond cap left)) =
        sym (truncated-beyond cap left)
        ∙ ap (λ l. l ++ beyond cap left) split
        ∙ append_assoc done (p ∷ later) (beyond cap left) in
      (
        done,
        p ∷ (later ++ beyond cap left),
        (
          whole,
          (true, rs, mid, steps, inr (e, p, later ++ beyond cap left, w', refl, stop, rw answer)),
        ),
        rw answer (
            ap (λ c. filtered c all)
              (at-StopsAt config run_partition sleeper tracker p mid e w' stop)
            ∙ Steps-resume config run_partition sleeper tracker all done
                (p ∷ (later ++ beyond cap left)) true w rs mid ordered (start ∙ whole) steps),
      )

  nothing_to_truncate : (cap : ℕ) → truncated {A = Partition K} cap [] ≡ []
  unfolding truncated is_deferred
  nothing_to_truncate cap = ground arith

  run_left_lem :
      (all left : List (Partition K)) (w : W)
      → IsOrdered all
      → filtered (tracker.at w) all ≡ left
      → Resumes all w left (
          run_left config run_partition
            (tracked config run_partition sleeper tracker)
            sleeper
            left
            w)
  unfolding run_left Steps
  run_left_lem all [] w ordered start = (
    [],
    [],
    (
      refl,
      (
        false,
        [],
        w,
        refl,
        inl (
          refl,
          sym (nothing_to_truncate config.max_partitions_per_execution)
              ∙ truncated_lem config.max_partitions_per_execution [],
        ),
      ),
    ),
    start,
  )
  run_left_lem all (p ∷ left) w ordered start =
      elim (chunk_loop-cases config run_partition (tracked config run_partition sleeper tracker)
        sleeper (truncated config.max_partitions_per_execution (p ∷ left))
        (empty_summary config.job_name) w) [
          | inl completed ↦ run_parts-Completed all (p ∷ left) w ordered start completed
          | inr interrupted ↦ run_parts-Interrupted all (p ∷ left) w ordered start interrupted
        ]

  filtered-nil : (c : Option K) → filtered {K = K} c [] ≡ []
  unfolding filtered
  filtered-nil none = refl
  filtered-nil (some c) = refl

  run_listed_lem :
      (all : List (Partition K)) (w : W)
      → IsOrdered all
      → Resumes all w (filtered (tracker.at w) all) (
          run_listed config run_partition
            (tracked config run_partition sleeper tracker)
            sleeper
            all
            w)
  unfolding run_listed after_cursor run_left
  run_listed_lem [] w ordered =
      subst (λ left. Resumes [] w left (ok (empty_summary config.job_name), w))
        (sym (filtered-nil (tracker.at w)))
        (run_left_lem [] [] w ordered (filtered-nil (tracker.at w)))
  run_listed_lem (p ∷ parts) w ordered =
      rw (tracker.read_lem w)
        (run_left_lem (p ∷ parts) (filtered (tracker.at w) (p ∷ parts)) w ordered refl)

  -- With a tracker behind the cursor, and listed partitions that are ranges in increasing order: an
  -- execution handles the first of the partitions that the cursor leaves, in order, each run once
  -- and recorded; it succeeds with their summary, having handled them up to the cap and deferred
  -- exactly when some are left, or it fails as the next one fails to run or to be recorded; in either
  -- case the cursor then leaves exactly those that were not handled.
  pub chunked_sync_run_lem :
      (list_partitions : Fut W (Result (List (Partition K)))) (all : List (Partition K))
      (w listed : W)
      → IsOrdered all
      → list_partitions w ≡ (ok all, listed)
      → Resumes all listed (filtered (tracker.at listed) all) (
          chunked_sync_run config run_partition
            (tracked config run_partition sleeper tracker)
            sleeper
            list_partitions
            w)
  unfolding chunked_sync_run
  chunked_sync_run_lem list_partitions all w listed ordered list_ok =
      let allowed : (ltb 0 config.max_partitions_per_execution && false) ≡ false = ground arith in
      rw (allowed, list_ok) (run_listed_lem all listed ordered)
