-- ===== src/Wf/Chunk/Totals.antt =====
-- crates/altair-wf/src/datasync/chunk/sync.rs: the summary of an execution.
use mathlib.Core.List.{append-nil, append_assoc}
use altair_rs.Prelude.{
  ℕ, ◌+◌, ◌%◌, ◌^◌, ◌≡◌, refl, sym, ap, ◌∙◌, Bool, List, [], ◌∷◌, ◌++◌, length, map, arith,
}
use altair_rs.Prelude.Text.{String}
use altair_rs.Wf.Chunk.{PartitionResult, ChunkedSyncSummary, empty_summary, add_result}
use altair_rs.Wf.Chunk.Steps.{add_results}

abbrev pub sum : List ℕ → ℕ
sum [] = 0
sum (n ∷ ns) = n + sum ns

wrap_wrap : (m n : ℕ) → (m % 2 ^ 64 + n) % 2 ^ 64 ≡ (m + n) % 2 ^ 64
wrap_wrap m n = omega arith

module _ {K : Type 0} where
  -- The summary, each total on its own: so many partitions, and the sums of what they report, as
  -- usize.
  abbrev pub summary_of : String → Bool → List (PartitionResult K) → ChunkedSyncSummary K
  summary_of name deferred rs = record {
    job_name = name;
    total_partitions = length rs;
    total_fetched = sum (map (λ r. r.fetched) rs) % 2 ^ 64;
    total_inserted = sum (map (λ r. r.inserted) rs) % 2 ^ 64;
    total_updated = sum (map (λ r. r.updated) rs) % 2 ^ 64;
    total_skipped = sum (map (λ r. r.skipped) rs) % 2 ^ 64;
    partitions = rs;
    deferred = deferred;
  }

  abbrev shifted : ChunkedSyncSummary K → List (PartitionResult K) → ChunkedSyncSummary K
  shifted s rs = record s {
    total_partitions = s.total_partitions + length rs;
    total_fetched = s.total_fetched + sum (map (λ r. r.fetched) rs);
    total_inserted = s.total_inserted + sum (map (λ r. r.inserted) rs);
    total_updated = s.total_updated + sum (map (λ r. r.updated) rs);
    total_skipped = s.total_skipped + sum (map (λ r. r.skipped) rs);
    partitions = s.partitions ++ rs;
  }

  -- Two summaries that agree in each field.
  summary_path :
      (s t : ChunkedSyncSummary K)
      → s.job_name ≡ t.job_name
      → s.total_partitions ≡ t.total_partitions
      → s.total_fetched ≡ t.total_fetched
      → s.total_inserted ≡ t.total_inserted
      → s.total_updated ≡ t.total_updated
      → s.total_skipped ≡ t.total_skipped
      → s.partitions ≡ t.partitions
      → s.deferred ≡ t.deferred
      → s ≡ t
  summary_path s t a b c d e f g h = λ i. record {
    job_name = a i;
    total_partitions = b i;
    total_fetched = c i;
    total_inserted = d i;
    total_updated = e i;
    total_skipped = f i;
    partitions = g i;
    deferred = h i;
  }

  -- The totals of what the partitions report, as usize.
  abbrev wrapped : ChunkedSyncSummary K → ChunkedSyncSummary K
  wrapped s = record s {
    total_fetched = s.total_fetched % 2 ^ 64;
    total_inserted = s.total_inserted % 2 ^ 64;
    total_updated = s.total_updated % 2 ^ 64;
    total_skipped = s.total_skipped % 2 ^ 64;
  }

  -- The sum without a bound.
  abbrev counted : PartitionResult K → ChunkedSyncSummary K → ChunkedSyncSummary K
  counted r s = record s {
    total_partitions = s.total_partitions + 1;
    total_fetched = s.total_fetched + r.fetched;
    total_inserted = s.total_inserted + r.inserted;
    total_updated = s.total_updated + r.updated;
    total_skipped = s.total_skipped + r.skipped;
    partitions = s.partitions ++ (r ∷ []);
  }

  add_result-wrapped :
      (r : PartitionResult K) (s : ChunkedSyncSummary K)
      → add_result r (wrapped s) ≡ wrapped (counted r s)
  add_result-wrapped r s =
      summary_path (add_result r (wrapped s)) (wrapped (counted r s)) refl refl
        (wrap_wrap s.total_fetched r.fetched) (wrap_wrap s.total_inserted r.inserted)
        (wrap_wrap s.total_updated r.updated) (wrap_wrap s.total_skipped r.skipped) refl refl

  add_results-shifted :
      (rs : List (PartitionResult K)) (s : ChunkedSyncSummary K)
      → add_results rs (wrapped s) ≡ wrapped (shifted s rs)
  add_results-shifted [] s = ap wrapped (
      summary_path s (shifted s []) refl (omega arith) (omega arith) (omega arith) (omega arith)
        (omega arith) (sym (append-nil s.partitions)) refl)
  add_results-shifted (r ∷ rs) s =
      ap (add_results rs) (add_result-wrapped r s)
      ∙ add_results-shifted rs (counted r s)
      ∙ ap wrapped (
          summary_path (shifted (counted r s) rs) (shifted s (r ∷ rs)) refl (omega arith)
            (omega arith) (omega arith) (omega arith) (omega arith)
            (append_assoc s.partitions (r ∷ []) rs) refl)

  pub add_results_lem :
      (name : String) (deferred : Bool) (rs : List (PartitionResult K))
      → (record (add_results rs (empty_summary name)) { deferred = deferred })
        ≡ summary_of name deferred rs
  add_results_lem name deferred rs =
      ap {A = ChunkedSyncSummary K} {B = ChunkedSyncSummary K}
        (λ s. record s { deferred = deferred }) (add_results-shifted rs (empty_summary name))
      ∙ summary_path (record (wrapped (shifted (empty_summary name) rs)) { deferred = deferred })
          (summary_of name deferred rs) refl (omega arith) (omega arith) (omega arith) (omega arith)
          (omega arith) refl refl
