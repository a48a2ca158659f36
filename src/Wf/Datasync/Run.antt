-- ===== src/Wf/Datasync/Run.antt =====
-- crates/altair-wf/src/datasync: a run with a record mapper.
use mathlib.Core.List.{append-nil, append_assoc}
use altair_rs.Prelude.{
  ℕ, suc, ◌+◌, ◌≡◌, refl, sym, ap, ◌∙◌, ◌⊎◌, inl, inr, false, List, [], ◌∷◌, ◌++◌, length, is_empty,
  arith,
}
use altair_rs.Prelude.Text.{String, ◌+++◌, to_string}
use altair_rs.Prelude.Async as Async
use altair_rs.Wf.Error.{Error, activity, display, Result, ok, err, Result-cases}
use altair_rs.Wf.Datasync.{
  WriteResult, nothing_written, SyncResult, MapResult, Source, Sink, keep, map_loop, map_detailed,
  record_mapper, Runner, timed, sync_records, run,
}

module _ {T U : Type 0} (func : T → Async.Result U String) where
  abbrev kept_or : Async.Result U String → List U → List U
  kept_or (Async.ok u) rest = u ∷ rest
  kept_or (Async.err e) rest = rest

  -- The records that the function maps, in order.
  abbrev pub kept : List T → List U
  kept [] = []
  kept (record' ∷ records) = kept_or (func record') (kept records)

  abbrev reason_or : ℕ → Async.Result U String → List String → List String
  reason_or i (Async.ok u) rest = rest
  reason_or i (Async.err e) rest = ("record " +++ to_string i +++ ": " +++ e) ∷ rest

  -- The errors of the others, with their positions from `i` on.
  abbrev pub reasons : ℕ → List T → List String
  reasons i [] = []
  reasons i (record' ∷ records) = reason_or i (func record') (reasons (i + 1) records)

  map_result_path :
      (a b : MapResult U)
      → a.records ≡ b.records
      → a.skipped ≡ b.skipped
      → a.skip_reasons ≡ b.skip_reasons
      → a ≡ b
  map_result_path a b p q r = λ i. record { records = p i; skipped = q i; skip_reasons = r i }

  abbrev with_more : ℕ → List T → MapResult U → MapResult U
  with_more i records out = record {
    records = out.records ++ kept records;
    skipped = out.skipped + length (reasons i records);
    skip_reasons = out.skip_reasons ++ reasons i records;
  }

  map_loop_lem :
      (i : ℕ) (records : List T) (out : MapResult U)
      → map_loop func i records out ≡ with_more i records out
  unfolding map_loop
  map_loop_lem i [] out =
      map_result_path _ _ (sym (append-nil out.records)) (omega arith)
        (sym (append-nil out.skip_reasons))
  map_loop_lem i (record' ∷ records) out = one (func record') (map_loop_lem (i + 1) records)
    where
      one :
          (o : Async.Result U String)
          → ((out : MapResult U)
              → map_loop func (i + 1) records out ≡ with_more (i + 1) records out)
          → map_loop func (i + 1) records (keep func i o out) ≡ record {
            records = out.records ++ kept_or o (kept records);
            skipped = out.skipped + length (reason_or i o (reasons (i + 1) records));
            skip_reasons = out.skip_reasons ++ reason_or i o (reasons (i + 1) records);
          }
      one (Async.ok u) h =
          h _ ∙ map_result_path _ _ (append_assoc out.records (u ∷ []) (kept records)) refl refl
      one (Async.err e) h =
          h _
          ∙ map_result_path _ _ refl (omega arith)
              (append_assoc out.skip_reasons _ (reasons (i + 1) records))

  map_detailed_lem :
      (records : List T)
      → map_detailed func records ≡ record {
        records = kept records;
        skipped = length (reasons 0 records);
        skip_reasons = reasons 0 records;
      }
  unfolding map_detailed
  map_detailed_lem records = map_loop_lem 0 records _ ∙ map_result_path _ _ refl (omega arith) refl

  kept-add-reasons :
      (i : ℕ) (records : List T)
      → length (kept records) + length (reasons i records) ≡ length records
  kept-add-reasons i [] = omega arith
  kept-add-reasons i (record' ∷ records) = one (func record') (kept-add-reasons (i + 1) records)
    where
      one :
          (o : Async.Result U String)
          → length (kept records) + length (reasons (i + 1) records) ≡ length records
          → length (kept_or o (kept records)) + length (reason_or i o (reasons (i + 1) records))
            ≡ suc (length records)
      one (Async.ok u) h = omega arith
      one (Async.err e) h = omega arith

  -- A record mapper keeps what its function gives, in order, and skips the other records, each with the
  -- error and the position of the record as a reason; every record is kept or skipped.
  pub map_detailed_exact :
      (records : List T)
      → ((map_detailed func records).records ≡ kept records)
        × ((map_detailed func records).skip_reasons ≡ reasons 0 records)
        × ((map_detailed func records).skipped ≡ length (reasons 0 records))
        × (length (map_detailed func records).records + (map_detailed func records).skipped
            ≡ length records)
  map_detailed_exact records =
      let same = map_detailed_lem records in
      (
        ap (λ r. r.records) same,
        ap (λ r. r.skip_reasons) same,
        ap (λ r. r.skipped) same,
        omega (
          arith,
          ap (λ r. length r.records) same,
          ap (λ r. r.skipped) same,
          kept-add-reasons 0 records,
        ),
      )

module _ {W T U : Type 0} (now : W → ℕ) (func : T → Async.Result U String) (source : Source W T)
    (sink : Sink W U) where
  abbrev pub record_runner : Runner W T U
  record_runner = record { source = source; mapper = record_mapper func; sink = sink }

  -- What a run answers where the sink writes, or fails.
  abbrev pub Written : List T → Result SyncResult × W → Result WriteResult × W → Type 0
  Written records answer written =
      (answer.1 ≡ written.1)
      × (((counts : WriteResult) × (result : SyncResult) × (written.0 ≡ ok counts)
            × (answer.0 ≡ ok result)
            × (result.total_fetched ≡ length (kept func records) + length (reasons func 0 records))
            × (result.write_result ≡ counts))
          ⊎ ((e : Error) × (written.0 ≡ err e)
              × (answer.0 ≡ err (activity ("sink " +++ sink.name +++ ": write") (display e)))))

  sync_records-Written :
      (started : ℕ) (records : List T) (w : W)
      → Written records
          (sync_records now record_runner started records w)
          (sink.write (kept func records) w)
  unfolding sync_records
  sync_records-Written started records w =
      let mapped = map_detailed_exact func records in
      rw mapped.0 (elim (Result-cases (sink.write (kept func records) w).0) [
        | inl (counts, done) ↦
            rw done (refl, inl (counts, _, refl, refl, sym (kept-add-reasons func 0 records), refl))
        | inr (e, fails) ↦ rw fails (refl, inr (e, refl, refl))
      ])

  -- A run with a record mapper, where the source gives records: with none it answers no totals and the
  -- sink is not called; otherwise the sink is called once, on the records that the function maps, in
  -- order, and the answer has what the sink has written, and the kept and the skipped records as the
  -- total, or the error of the sink.
  pub run_record_lem :
      (w : W) (records : List T)
      → (source.fetch w).0 ≡ ok records
      → ((records ≡ [])
          × (run now record_runner w ≡ (
            timed now record_runner (now w) 0 nothing_written (source.fetch w).1,
            (source.fetch w).1,
          )))
        ⊎ ((is_empty records ≡ false)
            × Written records
                (run now record_runner w)
                (sink.write (kept func records) (source.fetch w).1))
  unfolding run
  run_record_lem w [] h = inl (refl, rw h)
  run_record_lem w (first ∷ records) h =
      inr (refl, rw h (sync_records-Written (now w) (first ∷ records) (source.fetch w).1))
