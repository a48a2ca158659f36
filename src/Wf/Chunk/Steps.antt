-- ===== src/Wf/Chunk/Steps.antt =====
-- crates/altair-wf/src/datasync/chunk/sync.rs: what the loop does, partition by partition.
use altair_rs.Prelude.{
  is_empty-middle, ℕ, ◌≡◌, refl, ap, ◌∙◌, ◌⊎◌, inl, inr, Bool, true, false, not, ◌||◌, List, [],
  ◌∷◌, ◌++◌, is_empty,
}
use altair_rs.Prelude.Order.{TotalOrder}
use altair_rs.Wf.Error.{Error, Result, ok, err, Result-cases}
use altair_rs.Wf.Futures.{answered, Fut}
use altair_rs.Wf.Chunk.{
  Partition, PartitionResult, ChunkedSyncSummary, ChunkedSyncConfig, Cursor, add_result, advanced,
  paused, chunk_loop,
}

abbrev pub add_results :
    {K : Type 0} → List (PartitionResult K) → ChunkedSyncSummary K → ChunkedSyncSummary K
add_results [] summary = summary
add_results (r ∷ rs) summary = add_results rs (add_result r summary)

module _ {W K : Type 0} ⦃order : TotalOrder K⦄ (config : ChunkedSyncConfig)
    (run_partition : Partition K → Fut W (Result (PartitionResult K))) (cursor : Cursor W K)
    (sleeper : ℕ → Fut W (Unit {0})) where
  -- One partition handled: run, recorded at its end, and a pause if there is a next one.
  pub record Handled (p : Partition K) (more : Bool) (w : W) (r : PartitionResult K) (w' : W)
      : Type 0 where
    pub ran : W
    pub recorded : W
    pub run_ok : run_partition p w ≡ (ok r, ran)
    pub advance_ok : advanced cursor p.end ran ≡ (ok tt, recorded)
    pub pause : w' ≡ paused config sleeper more recorded

  -- Partitions handled one after the other; `more` says that another one follows them.
  unfoldable pub Steps : Bool → List (Partition K) → W → List (PartitionResult K) → W → Type 0
  Steps more [] w [] w' = w ≡ w'
  Steps more [] w (r ∷ rs) w' = ⊥
  Steps more (p ∷ ps) w [] w' = ⊥
  Steps more (p ∷ ps) w (r ∷ rs) w' =
      (mid : W) × Handled p (more || not (is_empty ps)) w r mid × Steps more ps mid rs w'

  -- The two ways in which a partition stops the loop.
  abbrev pub StopsAt : Partition K → W → Error → W → Type 0
  StopsAt p w e w' =
      (run_partition p w ≡ (err e, w'))
      ⊎ ((r : PartitionResult K) × (ran : W) × (run_partition p w ≡ (ok r, ran))
          × (advanced cursor p.end ran ≡ (err e, w')))

  abbrev pub Completed :
      List (Partition K) → ChunkedSyncSummary K → W → Result (ChunkedSyncSummary K) × W → Type 0
  Completed parts summary w answer =
      (rs : List (PartitionResult K)) × (w' : W) × Steps false parts w rs w'
      × (answer ≡ (ok (add_results rs summary), w'))

  abbrev pub Interrupted : List (Partition K) → W → Result (ChunkedSyncSummary K) × W → Type 0
  Interrupted parts w answer =
      (done : List (Partition K)) × (p : Partition K) × (later : List (Partition K)) × (rs : List
        (PartitionResult K))
      × (mid : W) × (e : Error) × (w' : W) × (parts ≡ done ++ (p ∷ later))
      × Steps true done w rs mid
      × StopsAt p mid e w'
      × (answer ≡ (err e, w'))

  abbrev Answered : List (Partition K) → ChunkedSyncSummary K → W → Type 0
  Answered parts summary w =
      let answer = chunk_loop config run_partition cursor sleeper parts summary w in
      Completed parts summary w answer ⊎ Interrupted parts w answer

  loop_goes_on :
      (p : Partition K) (rest : List (Partition K)) (summary : ChunkedSyncSummary K)
      (w ran next : W) (r : PartitionResult K)
      → run_partition p w ≡ (ok r, ran)
      → advanced cursor p.end ran ≡ (ok tt, next)
      → Answered rest (add_result r summary) (paused config sleeper (not (is_empty rest)) next)
      → Answered (p ∷ rest) summary w
  unfolding chunk_loop Steps
  loop_goes_on p rest summary w ran next r run_ok advance_ok (inl (rs, w', steps, answer)) = inl (
    r ∷ rs,
    w',
    (
      paused config sleeper (not (is_empty rest)) next,
      record { ran = ran; recorded = next; run_ok = run_ok; advance_ok = advance_ok; pause = refl },
      steps,
    ),
    rw (run_ok, advance_ok) answer,
  )
  loop_goes_on p rest summary w ran next r run_ok advance_ok
        (inr (done, q, later, rs, mid, e, w', split, steps, stop, answer)) =
      inr (
        p ∷ done,
        q,
        later,
        r ∷ rs,
        mid,
        e,
        w',
        ap (λ l. p ∷ l) split,
        (
          paused config sleeper (not (is_empty rest)) next,
          record {
            ran = ran;
            recorded = next;
            run_ok = run_ok;
            advance_ok = advance_ok;
            pause =
                ap (λ l. paused config sleeper (not (is_empty l)) next) split
                ∙ ap (λ b. paused config sleeper b next) (is_empty-middle done q later);
          },
          steps,
        ),
        stop,
        rw (run_ok, advance_ok) answer,
      )

  -- The loop handles all the partitions, or those up to the first that fails to run or to be recorded.
  pub chunk_loop-cases :
      (parts : List (Partition K)) (summary : ChunkedSyncSummary K) (w : W)
      → Answered parts summary w
  unfolding chunk_loop Steps
  chunk_loop-cases [] summary w = inl ([], w, refl, refl)
  chunk_loop-cases (p ∷ rest) summary w =
      let x = run_partition p w in
      elim (Result-cases x.0) [
        | inr (e, failed) ↦
            inr ([], p, rest, [], w, e, x.1, refl, refl, inl (answered x failed), rw failed)
        | inl (r, passed) ↦
            let y = advanced cursor p.end x.1 in
            elim (Result-cases y.0) [
              | inr (e, failed) ↦ inr (
                [],
                p,
                rest,
                [],
                w,
                e,
                y.1,
                refl,
                refl,
                inr (r, x.1, answered x passed, answered y failed),
                rw (passed, failed),
              )
              | inl (u, done) ↦
                  loop_goes_on p rest summary w x.1 y.1 r (answered x passed) (answered y done) (
                    chunk_loop-cases rest (add_result r summary)
                      (paused config sleeper (not (is_empty rest)) y.1))
            ]
      ]
