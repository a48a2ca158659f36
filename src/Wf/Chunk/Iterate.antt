-- ===== src/Wf/Chunk/Iterate.antt =====
-- crates/altair-wf/src/datasync/chunk/iterate.rs.
use mathlib.Core.Path.{subst}
use altair_rs.Prelude.{
  is_empty-middle, ℕ, ◌≡◌, refl, ap, ◌∙◌, ◌⊎◌, inl, inr, Bool, true, false, not, ◌&&◌, ◌||◌, Option,
  none, some, List, [], ◌∷◌, ◌++◌, ◌==◌, if◌then◌else◌, is_empty,
}
use altair_rs.Wf.Error.{Error, Result, ok, err, Result-cases}
use altair_rs.Wf.Futures.{answered, Fut, and_then}
use altair_rs.Wf.Chunk.{Partition}

module _ {W K : Type 0} (sleep : ℕ) (sleeper : Option (ℕ → Fut W (Unit {0})))
    (body : Partition K → Fut W (Result (Unit {0}))) where
  -- The pause after a partition; `more` says that it is not the last.
  unfoldable pub rested : Bool → Option (ℕ → Fut W (Unit {0})) → W → W
  rested more none w = w
  rested more (some s) w = if more && not (sleep == 0) then (s sleep w).1 else w

  unfoldable pub iterate_partitions : List (Partition K) → Fut W (Result (Unit {0}))
  unfolding rested
  iterate_partitions [] w = (ok tt, w)
  iterate_partitions (p ∷ rest) w =
      let (answer, w') = body p w in
      and_then answer (λ _ w''. iterate_partitions rest (rested (not (is_empty rest)) sleeper w''))
        w'

  -- The body ran on each partition in order, with a pause before the next one.
  abbrev pub Walks : Bool → List (Partition K) → W → W → Type 0
  Walks more [] w w' = w ≡ w'
  Walks more (p ∷ ps) w w' =
      (mid : W) × (body p w ≡ (ok tt, mid))
      × Walks more ps (rested (more || not (is_empty ps)) sleeper mid) w'

  -- All the partitions, or those up to the first error.
  abbrev pub Walked : List (Partition K) → W → Result (Unit {0}) × W → Type 0
  Walked parts w answer =
      ((w' : W) × Walks false parts w w' × (answer ≡ (ok tt, w')))
      ⊎ ((done : List (Partition K)) × (p : Partition K) × (later : List (Partition K)) × (mid : W)
          × (e : Error) × (w' : W) × (parts ≡ done ++ (p ∷ later))
          × Walks true done w mid
          × (body p mid ≡ (err e, w'))
          × (answer ≡ (err e, w')))

  walk_on :
      (p : Partition K) (rest : List (Partition K)) (w mid : W)
      → body p w ≡ (ok tt, mid)
      → Walked rest
          (rested (not (is_empty rest)) sleeper mid)
          (iterate_partitions rest (rested (not (is_empty rest)) sleeper mid))
      → Walked (p ∷ rest) w (iterate_partitions (p ∷ rest) w)
  unfolding iterate_partitions
  walk_on p rest w mid ran (inl (w', walks, answer)) = inl (w', (mid, ran, walks), rw ran answer)
  walk_on p rest w mid ran (inr (done, q, later, at, e, w', split, walks, failed, answer)) =
      let pause : rested (not (is_empty rest)) sleeper mid ≡ rested true sleeper mid =
        ap (λ l. rested (not (is_empty l)) sleeper mid) split
        ∙ ap (λ b. rested b sleeper mid) (is_empty-middle done q later) in
      inr (
        p ∷ done,
        q,
        later,
        at,
        e,
        w',
        ap (λ l. p ∷ l) split,
        (mid, ran, subst (λ start. Walks true done start at) pause walks),
        failed,
        rw ran answer,
      )

  -- `iterate_partitions` runs the body on the partitions in order, with a pause between two of
  -- them, and succeeds after the last; or it stops at the first error and answers that.
  pub iterate_partitions_lem :
      (parts : List (Partition K)) (w : W) → Walked parts w (iterate_partitions parts w)
  unfolding iterate_partitions
  iterate_partitions_lem [] w = inl (w, refl, refl)
  iterate_partitions_lem (p ∷ rest) w =
      let x = body p w in
      elim (Result-cases x.0) [
        | inl (u, passed) ↦
            walk_on p rest w x.1 (answered x passed)
              (iterate_partitions_lem rest (rested (not (is_empty rest)) sleeper x.1))
        | inr (e, failed) ↦ inr ([], p, rest, w, e, x.1, refl, refl, answered x failed, rw failed)
      ]
