-- ===== src/Wf/Tests/Datasync.antt =====
-- Runs of crates/altair-wf/src/datasync, and its theorems at a concrete input. The outside state
-- counts the records that have been written.
use altair_rs.Prelude.{
  ℕ, ◌+◌, ◌%◌, ◌==◌, ◌≡◌, ◌⊎◌, refl, false, Option, none, some, List, [], ◌∷◌, length, is_empty,
  if◌then◌else◌,
}
use altair_rs.Prelude.Text.{String}
use altair_rs.Prelude.Async as Async
use altair_rs.Wf.Error.{invalid_input, ok, err}
use altair_rs.Wf.Datasync.{Source, Sink, nothing_written, record_mapper, map_detailed, timed, run}
use altair_rs.Wf.Datasync.Job.{
  SyncJobBuilder, new_builder, with_source, with_mapper, with_sink, with_schedule, is_blank,
  build_job,
}
use altair_rs.Wf.Datasync.Run.{kept, record_runner, Written, run_record_lem}

-- Even numbers are kept.
abbrev even : ℕ → Async.Result ℕ String
even n = if n % 2 == 0 then Async.ok n else Async.err "odd"

abbrev four : List ℕ
four = 2 ∷ 3 ∷ 4 ∷ 5 ∷ []

abbrev numbers : Source ℕ ℕ
numbers = record { name = "numbers"; fetch = λ w. (ok four, w) }

abbrev store : Sink ℕ ℕ
store = record {
  name = "store";
  write = λ records w.
      (ok record { inserted = length records; updated = 0; skipped = 0 }, w + length records);
}

skips : (map_detailed even four).skip_reasons ≡ "record 1: odd" ∷ "record 3: odd" ∷ []
unfolding map_detailed altair_rs.Prelude.Text.to_string
skips = refl

run_record_lem_example :
    ((four ≡ [])
      × (run (λ w. w) (record_runner (λ w. w) even numbers store) 0
          ≡ (timed (λ w. w) (record_runner (λ w. w) even numbers store) 0 0 nothing_written 0, 0)))
    ⊎ ((is_empty four ≡ false)
        × Written
            (λ w. w)
            even
            numbers
            store
            four
            (run (λ w. w) (record_runner (λ w. w) even numbers store) 0)
            (store.write (kept even four) 0))
run_record_lem_example = run_record_lem (λ w. w) even numbers store 0 four refl

abbrev hourly : SyncJobBuilder ℕ ℕ ℕ ℕ ℕ
hourly = with_schedule 3600 (
    with_sink store
      (with_mapper (record_mapper even) (with_source numbers (new_builder 0 0 "sync"))))

blank_name : build_job (record hourly { name = " " }) ≡ err (invalid_input "job name is required")
unfolding build_job is_blank
blank_name = refl
