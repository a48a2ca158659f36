-- ===== src/Wf/Tests/Chunk.antt =====
-- Runs of `chunked_sync_run` of crates/altair-wf/src/datasync/chunk/sync.rs, and its theorem at a
-- concrete input.
use altair_rs.Prelude.{
  ◌<◌, ◌⊎◌, ℕ, ◌+◌, ◌==◌, if◌then◌else◌, ◌≡◌, refl, sym, ap, Option, none, some, List, [], ◌∷◌,
  false, true,
}
use altair_rs.Prelude.Order.{nat_order}
use altair_rs.Wf.Error.{Error, invalid_input, Result, ok, err}
use altair_rs.Wf.Futures.{Fut}
use altair_rs.Wf.Chunk.{
  no_cursor, cap_without_cursor, Partition, PartitionResult, ChunkedSyncConfig, new_config,
  with_max_partitions, filtered, chunked_sync_run,
}
use altair_rs.Wf.Chunk.Unrecorded.{Covers, chunked_sync_run-Covers}
use altair_rs.Wf.Chunk.Iterate.{iterate_partitions}
use altair_rs.Wf.Chunk.Totals.{summary_of}
use altair_rs.Wf.Chunk.Resume.{Tracker, tracked}
use altair_rs.Wf.Chunk.Sync.{Resumes, chunked_sync_run_lem}

abbrev range : ℕ → ℕ → Partition ℕ
range start end = record { start = start; end = end }

abbrev three : List (Partition ℕ)
three = range 0 10 ∷ range 10 20 ∷ range 20 30 ∷ []

abbrev fetched_all : Partition ℕ → PartitionResult ℕ
fetched_all p = record {
  start = p.start;
  end = p.end;
  fetched = 10;
  inserted = 7;
  updated = 2;
  skipped = 1;
}

-- The outside state is the key that the tracker has recorded.
abbrev fetch : Partition ℕ → Fut (Option ℕ) (Result (PartitionResult ℕ))
fetch p w = (ok (fetched_all p), w)

abbrev sleep : ℕ → Fut (Option ℕ) (Unit {0})
sleep d w = (tt, w)

abbrev list_three : Fut (Option ℕ) (Result (List (Partition ℕ)))
list_three w = (ok three, w)

not_refused :
    (k : ℕ) (w w' : Option ℕ) (e : Error)
    → ◌≡◌ {A = Result (Unit {0}) × Option ℕ} (ok tt, some k) (err e, w')
    → w' ≡ w
not_refused k w w' e h =
    let same : ◌≡◌ {A = Result (Unit {0})} (ok tt) (err e) = ap (λ x. x.0) h in cc

abbrev memory : Tracker fetch sleep
memory = record {
  at = λ w. w;
  read = λ w. (ok w, w);
  advance = λ k w. (ok tt, some k);
  read_lem = λ w. refl;
  advance_ok = λ k w w' h. ap (λ x. x.1) (sym h);
  advance_err = not_refused;
  run_apart = λ p w. refl;
  sleep_apart = λ d w. refl;
}

abbrev two_at_most : ChunkedSyncConfig
two_at_most = with_max_partitions 2 (new_config "orders")

-- Two of the three partitions, and one deferred.
first_execution :
    chunked_sync_run two_at_most fetch
      (tracked two_at_most fetch sleep memory)
      sleep
      list_three
      none
    ≡ (
      ok (summary_of "orders" true (fetched_all (range 0 10) ∷ fetched_all (range 10 20) ∷ [])),
      some 20,
    )
unfolding chunked_sync_run
first_execution = refl

second_execution :
    chunked_sync_run two_at_most fetch
      (tracked two_at_most fetch sleep memory)
      sleep
      list_three
      (some 20)
    ≡ (ok (summary_of "orders" false (fetched_all (range 20 30) ∷ [])), some 30)
unfolding chunked_sync_run
second_execution = refl

chunked_sync_run_lem_example :
    Resumes two_at_most fetch sleep memory three (some 10) (filtered (some 10) three) (
      chunked_sync_run two_at_most fetch
        (tracked two_at_most fetch sleep memory)
        sleep
        list_three
        (some 10))
chunked_sync_run_lem_example =
    chunked_sync_run_lem two_at_most fetch sleep memory list_three three (some 10) (some 10)
      (refl, (refl, refl, (refl, refl, tt))) refl

-- The body refuses the partition that starts at 10.
abbrev count_or_refuse : Partition ℕ → Fut ℕ (Result (Unit {0}))
count_or_refuse p w =
    if p.start == 10 then (err (invalid_input "refused"), w + 1) else (ok tt, w + 1)

-- The first two bodies and one pause.
abbrev tired : ℕ → Fut ℕ (Unit {0})
tired d w = (tt, w + d)

stops_at_10 :
    iterate_partitions 5 (some tired) count_or_refuse three 0 ≡ (err (invalid_input "refused"), 7)
unfolding iterate_partitions
stops_at_10 = refl

chunked_sync_run-Covers_example :
    ((0 < (new_config "orders").max_partitions_per_execution)
      × (chunked_sync_run (new_config "orders") fetch no_cursor sleep list_three none
          ≡ (err (invalid_input cap_without_cursor), none)))
    ⊎ (((new_config "orders").max_partitions_per_execution ≡ 0)
        × Covers
            (new_config "orders")
            fetch
            sleep
            three
            none
            (chunked_sync_run (new_config "orders") fetch no_cursor sleep list_three none))
chunked_sync_run-Covers_example =
    chunked_sync_run-Covers (new_config "orders") fetch sleep list_three three none none refl
