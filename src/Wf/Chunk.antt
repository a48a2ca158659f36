-- ===== src/Wf/Chunk.antt =====
-- crates/altair-wf/src/datasync/chunk/partition.rs and sync.rs. A duration is a number of
-- nanoseconds; each closure is a step on the outside state, and so is the call of one.
pub mod Steps
pub mod Ordered
pub mod Sync
pub mod Resume
pub mod Totals
pub mod Truncation
pub mod Unrecorded
pub mod Iterate
use altair_rs.Prelude.{
  ℕ, zero, suc, ◌+◌, ◌%◌, ◌^◌, ◌<◌, ◌≡◌, Bool, true, false, not, ◌&&◌, Option, none, some, List, [],
  ◌∷◌, ◌++◌, ltb, ◌==◌, if◌then◌else◌, length, is_empty, take,
}
use altair_rs.Prelude.Text.{String, ◌+++◌}
use altair_rs.Prelude.Order.{TotalOrder}
use altair_rs.Wf.Error.{Error, invalid_input, Result, ok, err, ◌>>=◌}
use altair_rs.Wf.Futures.{Fut, and_then}

pub record Partition (K : Type 0) : Type 0 where
  pub start : K
  pub end : K

pub record PartitionResult (K : Type 0) : Type 0 where
  pub start : K
  pub end : K
  pub fetched : ℕ
  pub inserted : ℕ
  pub updated : ℕ
  pub skipped : ℕ

pub record ChunkedSyncSummary (K : Type 0) : Type 0 where
  pub job_name : String
  pub total_partitions : ℕ
  pub total_fetched : ℕ
  pub total_inserted : ℕ
  pub total_updated : ℕ
  pub total_skipped : ℕ
  pub partitions : List (PartitionResult K)
  pub deferred : Bool

pub record ChunkedSyncConfig : Type 0 where
  pub job_name : String
  pub partition_sleep : ℕ
  pub max_partitions_per_execution : ℕ

-- `ChunkedSyncConfig::new` and its two setters.
abbrev pub new_config : String → ChunkedSyncConfig
new_config name = record { job_name = name; partition_sleep = 0; max_partitions_per_execution = 0 }

abbrev pub with_partition_sleep : ℕ → ChunkedSyncConfig → ChunkedSyncConfig
with_partition_sleep sleep config = record config { partition_sleep = sleep }

abbrev pub with_max_partitions : ℕ → ChunkedSyncConfig → ChunkedSyncConfig
with_max_partitions n config = record config { max_partitions_per_execution = n }

-- `Cursor::None` and `Cursor::Some`.
pub data Cursor (W K : Type 0) : Type 0 where
  no_cursor : Cursor W K
  with_cursor :
      (read : Fut W (Result (Option K))) (advance : K → Fut W (Result (Unit {0}))) → Cursor W K

abbrev pub is_no_cursor : {W K : Type 0} → Cursor W K → Bool
is_no_cursor no_cursor = true
is_no_cursor (with_cursor read advance) = false

-- The summary with the job's name and the defaults.
abbrev pub empty_summary : {K : Type 0} → String → ChunkedSyncSummary K
empty_summary name = record {
  job_name = name;
  total_partitions = 0;
  total_fetched = 0;
  total_inserted = 0;
  total_updated = 0;
  total_skipped = 0;
  partitions = [];
  deferred = false;
}

-- A sum of usize as a release build computes it; a debug build panics on an overflow.
abbrev pub wrap_usize : ℕ → ℕ
wrap_usize n = n % 2 ^ 64

abbrev pub add_result :
    {K : Type 0} → PartitionResult K → ChunkedSyncSummary K → ChunkedSyncSummary K
add_result pr summary = record summary {
  total_partitions = summary.total_partitions + 1;
  total_fetched = wrap_usize (summary.total_fetched + pr.fetched);
  total_inserted = wrap_usize (summary.total_inserted + pr.inserted);
  total_updated = wrap_usize (summary.total_updated + pr.updated);
  total_skipped = wrap_usize (summary.total_skipped + pr.skipped);
  partitions = summary.partitions ++ (pr ∷ []);
}

-- `Partition::try_new`; `show` is the key's `Debug` form.
unfoldable pub try_new :
    {K : Type 0} ⦃order : TotalOrder K⦄ → (K → String) → K → K → Result (Partition K)
try_new ⦃order⦄ show start end =
    if order.le end start
    then err (
        invalid_input
          ("partition end (" +++ show end +++ ") must be > start (" +++ show start +++ ")"))
    else ok (record { start = start; end = end })

-- `parts.retain(|p| p.start >= c)`.
unfoldable pub retain_from :
    {K : Type 0} ⦃order : TotalOrder K⦄ → K → List (Partition K) → List (Partition K)
retain_from c [] = []
retain_from ⦃order⦄ c (p ∷ parts) =
    let kept = retain_from c parts in if order.le c p.start then p ∷ kept else kept

-- The filter, which only a recorded cursor applies.
unfoldable pub filtered :
    {K : Type 0} ⦃order : TotalOrder K⦄ → Option K → List (Partition K) → List (Partition K)
unfolding retain_from
filtered none parts = parts
filtered (some c) parts = retain_from c parts

unfoldable pub is_deferred : {A : Type 0} → ℕ → List A → Bool
is_deferred cap parts = ltb 0 cap && ltb cap (length parts)

-- `parts.truncate(...)`.
unfoldable pub truncated : {A : Type 0} → ℕ → List A → List A
unfolding is_deferred
truncated cap parts = if is_deferred cap parts then take cap parts else parts

-- The message for a cap without a cursor.
abbrev pub cap_without_cursor : String
cap_without_cursor =
    "max_partitions_per_execution requires a cursor — without one, the next execution would re-process the same prefix forever"

-- `if let Some(adv) = advance.as_mut()`.
unfoldable pub advanced : {W K : Type 0} → Cursor W K → K → Fut W (Result (Unit {0}))
advanced no_cursor completed w = (ok tt, w)
advanced (with_cursor read advance) completed w = advance completed w

-- The pause after a partition; `more` says that it is not the last.
unfoldable pub paused : {W : Type 0} → ChunkedSyncConfig → (ℕ → Fut W (Unit {0})) → Bool → W → W
paused config sleeper more w =
    if more && not (config.partition_sleep == 0) then (sleeper config.partition_sleep w).1 else w

module _ {W K : Type 0} ⦃order : TotalOrder K⦄ (config : ChunkedSyncConfig)
    (run_partition : Partition K → Fut W (Result (PartitionResult K))) (cursor : Cursor W K)
    (sleeper : ℕ → Fut W (Unit {0})) where
  -- The loop over the partitions.
  unfoldable pub chunk_loop :
      List (Partition K) → ChunkedSyncSummary K → Fut W (Result (ChunkedSyncSummary K))
  unfolding advanced paused
  chunk_loop [] summary w = (ok summary, w)
  chunk_loop (p ∷ rest) summary w =
      let (outcome, w1) = run_partition p w in
      and_then outcome
        (λ pr w1'.
          let (recorded, w2) = advanced cursor p.end w1' in
          and_then recorded
            (λ _ w2'.
              chunk_loop rest (add_result pr summary)
                (paused config sleeper (not (is_empty rest)) w2'))
            w2)
        w1

  -- What the cursor leaves of the partitions.
  unfoldable pub after_cursor :
      Cursor W K → List (Partition K) → Fut W (Result (List (Partition K)))
  unfolding filtered
  after_cursor no_cursor parts w = (ok parts, w)
  after_cursor (with_cursor read advance) parts w =
      let (cur, w') = read w in (cur >>= λ c. ok (filtered c parts), w')

  -- From the truncation on.
  unfoldable pub run_parts : List (Partition K) → Fut W (Result (ChunkedSyncSummary K))
  unfolding truncated chunk_loop
  run_parts parts w =
      let cap = config.max_partitions_per_execution in
      let (done, w') = chunk_loop (truncated cap parts) (empty_summary config.job_name) w in
      (done >>= λ summary. ok (record summary { deferred = is_deferred cap parts }), w')

  -- The two early returns on an empty list; without a cursor the second test repeats the first.
  unfoldable pub run_left : List (Partition K) → Fut W (Result (ChunkedSyncSummary K))
  unfolding run_parts
  run_left [] w = (ok (empty_summary config.job_name), w)
  run_left (p ∷ parts) w = run_parts (p ∷ parts) w

  unfoldable pub run_listed : List (Partition K) → Fut W (Result (ChunkedSyncSummary K))
  unfolding after_cursor run_left
  run_listed [] w = (ok (empty_summary config.job_name), w)
  run_listed (p ∷ parts) w =
      let (left, w') = after_cursor cursor (p ∷ parts) w in and_then left run_left w'

  unfoldable pub chunked_sync_run :
      Fut W (Result (List (Partition K))) → Fut W (Result (ChunkedSyncSummary K))
  unfolding run_listed
  chunked_sync_run list_partitions w =
      if ltb 0 config.max_partitions_per_execution && is_no_cursor cursor
      then (err (invalid_input cap_without_cursor), w)
      else (let (listed, w') = list_partitions w in and_then listed run_listed w')
