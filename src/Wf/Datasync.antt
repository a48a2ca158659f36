-- ===== src/Wf/Datasync.antt =====
-- crates/altair-wf/src/datasync: source.rs, mapper.rs, sink.rs, result.rs and runner.rs. An error in a
-- box is its printed text; a `Duration` is its number of nanoseconds.
pub mod Job
pub mod Run
use altair_rs.Prelude.{ℕ, ◌+◌, ◌-◌, List, [], ◌∷◌, ◌++◌, length, is_empty, if◌then◌else◌}
use altair_rs.Prelude.Text.{String, ◌+++◌, to_string}
use altair_rs.Prelude.Async as Async
use altair_rs.Wf.Error.{Error, activity, display, Result, ok, err, map_err}
use altair_rs.Wf.Futures.{Fut, and_then}

pub record WriteResult : Type 0 where
  pub inserted : ℕ
  pub updated : ℕ
  pub skipped : ℕ

-- `WriteResult::default`, `add` and `total`.
abbrev pub nothing_written : WriteResult
nothing_written = record { inserted = 0; updated = 0; skipped = 0 }

abbrev pub add_written : WriteResult → WriteResult → WriteResult
add_written self other = record {
  inserted = self.inserted + other.inserted;
  updated = self.updated + other.updated;
  skipped = self.skipped + other.skipped;
}

abbrev pub total_written : WriteResult → ℕ
total_written self = self.inserted + self.updated + self.skipped

pub record SyncResult : Type 0 where
  pub total_fetched : ℕ
  pub write_result : WriteResult
  pub processing_time : ℕ

pub record MapResult (U : Type 0) : Type 0 where
  pub records : List U
  pub skipped : ℕ
  pub skip_reasons : List String

-- The traits.
pub record Source (W T : Type 0) : Type 0 where
  pub name : String
  pub fetch : Fut W (Result (List T))

pub record Mapper (W T U : Type 0) : Type 0 where
  pub map_records : List T → Fut W (Result (List U))

pub record Sink (W U : Type 0) : Type 0 where
  pub name : String
  pub write : List U → Fut W (Result WriteResult)

abbrev pub identity_mapper : {W T : Type 0} → Mapper W T T
identity_mapper = record { map_records = λ records w. (ok records, w) }

module _ {T U : Type 0} (func : T → Async.Result U String) where
  abbrev pub keep : ℕ → Async.Result U String → MapResult U → MapResult U
  keep i (Async.ok u) out = record out { records = out.records ++ (u ∷ []) }
  keep i (Async.err e) out = record out {
    skipped = out.skipped + 1;
    skip_reasons = out.skip_reasons ++ (("record " +++ to_string i +++ ": " +++ e) ∷ []);
  }

  -- The loop of `map_detailed`.
  unfoldable pub map_loop : ℕ → List T → MapResult U → MapResult U
  map_loop i [] out = out
  map_loop i (record' ∷ records) out = map_loop (i + 1) records (keep i (func record') out)

  unfoldable pub map_detailed : List T → MapResult U
  unfolding map_loop
  map_detailed records = map_loop 0 records record { records = []; skipped = 0; skip_reasons = [] }

  -- `RecordMapper` as a `Mapper`.
  abbrev pub record_mapper : {W : Type 0} → Mapper W T U
  record_mapper = record { map_records = λ records w. (ok (map_detailed records).records, w) }

pub record Runner (W T U : Type 0) : Type 0 where
  pub source : Source W T
  pub mapper : Mapper W T U
  pub sink : Sink W U

module _ {W T U : Type 0} (now : W → ℕ) (runner : Runner W T U) where
  -- The result with the time that has gone by; the subtraction stops at 0, as `elapsed` does.
  abbrev pub timed : ℕ → ℕ → WriteResult → W → Result SyncResult
  timed started total_fetched written w = ok record {
    total_fetched = total_fetched;
    write_result = written;
    processing_time = now w - started;
  }

  -- What follows on records.
  unfoldable pub sync_records : ℕ → List T → Fut W (Result SyncResult)
  sync_records started records w =
      let (mapped, w') = runner.mapper.map_records records w in
      and_then (map_err (λ e. activity "mapper: map" (display e)) mapped)
        (λ mapped w.
          let (written, w') = runner.sink.write mapped w in
          and_then
            (map_err (λ e. activity ("sink " +++ runner.sink.name +++ ": write") (display e))
              written)
            (λ written w. (timed started (length records) written w, w)) w')
        w'

  unfoldable pub run : Fut W (Result SyncResult)
  unfolding sync_records
  run w =
      let started = now w in
      let (fetched, w') = runner.source.fetch w in
      and_then
        (map_err (λ e. activity ("source " +++ runner.source.name +++ ": fetch") (display e))
          fetched)
        (λ records w.
          if is_empty records
          then (timed started 0 nothing_written w, w)
          else sync_records started records w)
        w'
