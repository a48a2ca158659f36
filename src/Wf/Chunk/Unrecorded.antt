-- ===== src/Wf/Chunk/Unrecorded.antt =====
-- crates/altair-wf/src/datasync/chunk/sync.rs: executions without a cursor.
use altair_rs.Prelude.{
  Bool-cases, ltb→lt, ℕ, ◌<◌, ◌≡◌, refl, ap, ◌∙◌, ◌⊎◌, inl, inr, false, ◌&&◌, List, [], ◌∷◌, arith,
  ltb, length,
}
use altair_rs.Prelude.Order.{TotalOrder}
use altair_rs.Wf.Error.{Result, ok, err, invalid_input}
use altair_rs.Wf.Futures.{Fut}
use altair_rs.Wf.Chunk.{
  Partition, PartitionResult, ChunkedSyncSummary, ChunkedSyncConfig, no_cursor, empty_summary,
  cap_without_cursor, is_deferred, truncated, after_cursor, run_parts, run_left, run_listed,
  chunked_sync_run,
}
use altair_rs.Wf.Chunk.Steps.{Steps, Interrupted, chunk_loop-cases}
use altair_rs.Wf.Chunk.Totals.{summary_of, add_results_lem}
use altair_rs.Wf.Chunk.Truncation.{first_of, truncated_lem}

module _ {W K : Type 0} ⦃order : TotalOrder K⦄ (config : ChunkedSyncConfig)
    (run_partition : Partition K → Fut W (Result (PartitionResult K)))
    (sleeper : ℕ → Fut W (Unit {0})) where
  -- All the partitions were handled, or those up to the first that fails.
  abbrev pub Covers : List (Partition K) → W → Result (ChunkedSyncSummary K) × W → Type 0
  Covers all w answer =
      ((rs : List (PartitionResult K)) × (w' : W) × Steps config run_partition no_cursor sleeper
          false all w rs w'
        × (answer ≡ (ok (summary_of config.job_name false rs), w')))
      ⊎ Interrupted config run_partition no_cursor sleeper all w answer

  no_cap_left : (cap n : ℕ) → cap ≡ 0 → (ltb 0 cap && ltb cap n) ≡ false
  no_cap_left cap n h = ground arith

  run_parts-Covers :
      (all : List (Partition K)) (w : W)
      → config.max_partitions_per_execution ≡ 0
      → Covers all w (run_parts config run_partition no_cursor sleeper all w)
  unfolding run_parts is_deferred
  run_parts-Covers all w no_cap =
      let cap = config.max_partitions_per_execution in
      let whole : truncated cap all ≡ all =
        truncated_lem cap all ∙ ap (λ n. first_of n all) no_cap in
      let nothing_left : is_deferred cap all ≡ false = no_cap_left cap (length all) no_cap in
      elim (chunk_loop-cases config run_partition no_cursor sleeper all
        (empty_summary config.job_name) w) [
          | inl (rs, w', steps, answer) ↦ inl (
            rs,
            w',
            steps,
            rw (whole, answer, nothing_left)
                (ap (λ s. (ok s, w')) (add_results_lem config.job_name false rs)),
          )
          | inr (done, p, later, rs, mid, e, w', split, steps, stop, answer) ↦
              inr (done, p, later, rs, mid, e, w', split, steps, stop, rw (whole, answer))
        ]

  run_listed-Covers :
      (all : List (Partition K)) (w : W)
      → config.max_partitions_per_execution ≡ 0
      → Covers all w (run_listed config run_partition no_cursor sleeper all w)
  unfolding run_listed after_cursor run_left Steps
  run_listed-Covers [] w no_cap = inl ([], w, refl, refl)
  run_listed-Covers (p ∷ parts) w no_cap = run_parts-Covers (p ∷ parts) w no_cap

  -- Without a cursor, a cap is refused before anything is listed or run; without a cap all the listed
  -- partitions are handled in order and summed up, none deferred, or those up to the first that
  -- fails, whose error is the answer.
  pub chunked_sync_run-Covers :
      (list_partitions : Fut W (Result (List (Partition K)))) (all : List (Partition K))
      (w listed : W)
      → list_partitions w ≡ (ok all, listed)
      → ((0 < config.max_partitions_per_execution)
          × (chunked_sync_run config run_partition no_cursor sleeper list_partitions w
              ≡ (err (invalid_input cap_without_cursor), w)))
        ⊎ ((config.max_partitions_per_execution ≡ 0)
            × Covers all listed
                (chunked_sync_run config run_partition no_cursor sleeper list_partitions w))
  unfolding chunked_sync_run
  chunked_sync_run-Covers list_partitions all w listed list_ok =
      elim (Bool-cases (ltb 0 config.max_partitions_per_execution)) [
        | inl capped ↦ inl (ltb→lt 0 config.max_partitions_per_execution capped, rw capped)
        | inr no_cap ↦
            let none_set : config.max_partitions_per_execution ≡ 0 = ground arith in
            inr (none_set, rw (no_cap, list_ok) (run_listed-Covers all listed none_set))
      ]
