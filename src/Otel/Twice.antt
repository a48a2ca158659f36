-- ===== src/Otel/Twice.antt =====
-- crates/altair-otel/src: sequences of `init` and `shutdown` in one process.
use altair_rs.Prelude.{
  ℕ, ◌+◌, ◌≤◌, ◌≡◌, refl, ◌∙◌, ◌⊎◌, inl, inr, true, false, none, some, List, [], ◌∷◌, arith,
  Bool-cases, Option-cases,
}
use altair_rs.Prelude.Async.{ok, err, Result-cases}
use altair_rs.Otel.Config.{Config, LogFormat, Result, already_initialized}
use altair_rs.Otel.Init.{OtelSdk, Process, build_providers, set_globals, install, shutdown, init}

module _ {P M S T : Type 0} (sdk : OtelSdk P M S T) where
  -- After a subscriber is set, `init` fails, but not before it has replaced the global providers.
  pub init_again :
      (config : Config) (process : Process P M) (format : LogFormat) (providers : P × M)
      → process.subscriber ≡ some format
      → build_providers sdk config ≡ ok providers
      → init sdk config process
        ≡ (err already_initialized, set_globals providers (record process { propagator = true }))
  unfolding init
  init_again config process format providers set built = rw (built, set) refl

  init_fresh :
      (config : Config) (process : Process P M) (providers : P × M)
      → process.subscriber ≡ none
      → process.slot ≡ none
      → process.poisoned ≡ false
      → build_providers sdk config ≡ ok providers
      → init sdk config process ≡ (
        ok tt,
        record (set_globals providers (record process { propagator = true })) {
          subscriber = some config.log_format;
          slot = some providers;
        },
      )
  unfolding init install
  init_fresh config process providers unset empty sound built = rw (built, unset, sound, empty) refl

  -- In a fresh process a first `init` succeeds and a second one fails. It has replaced the global
  -- providers all the same: a shutdown stops the providers of the first, and those of the second,
  -- which are then the global ones, are never stopped. Another shutdown does nothing.
  pub init_twice :
      (first second : Config) (process : Process P M) (p q : P × M)
      → process.subscriber ≡ none
      → process.slot ≡ none
      → process.poisoned ≡ false
      → build_providers sdk first ≡ ok p
      → build_providers sdk second ≡ ok q
      → (after : Process P M) × (again : Process P M) × (init sdk first process ≡ (ok tt, after))
        × (init sdk second after ≡ (err already_initialized, again))
        × ((shutdown again).global_tracer ≡ some q.0)
        × ((shutdown again).global_meter ≡ some q.1)
        × ((shutdown again).tracers_shut ≡ p.0 ∷ process.tracers_shut)
        × ((shutdown again).meters_shut ≡ p.1 ∷ process.meters_shut)
        × (shutdown (shutdown again) ≡ shutdown again)
  unfolding shutdown
  init_twice first second process p q unset empty sound built1 built2 = (
    _,
    _,
    init_fresh first process p unset empty sound built1,
    init_again second _ first.log_format q refl built2,
    rw sound refl,
    rw sound refl,
    rw sound refl,
    rw sound refl,
    rw sound refl,
  )

-- What a process calls, one after the other.
pub data Call : Type 0 where
  inits : Config → Call
  shuts : Call

abbrev pub success_of : {A : Type 0} → Result A → ℕ
success_of (ok a) = 1
success_of (err e) = 0

module _ {P M S T : Type 0} (sdk : OtelSdk P M S T) where
  -- How many of the calls of `init` succeed.
  abbrev pub successes : List Call → Process P M → ℕ
  successes [] process = 0
  successes (inits config ∷ calls) process =
      success_of (init sdk config process).0 + successes calls (init sdk config process).1
  successes (shuts ∷ calls) process = successes calls (shutdown process)

  subscriber-shutdown : (process : Process P M) → (shutdown process).subscriber ≡ process.subscriber
  unfolding shutdown
  subscriber-shutdown process = elim (Bool-cases process.poisoned) [
    | inl poisoned ↦ rw poisoned refl
    | inr sound ↦ elim (Option-cases process.slot) [
      | inl empty ↦ rw (sound, empty) refl
      | inr (there, e) ↦ rw (sound, e) refl
    ]
  ]

  -- Once a subscriber is set, it stays and no `init` succeeds.
  init_set :
      (config : Config) (process : Process P M) (format : LogFormat)
      → process.subscriber ≡ some format
      → (success_of (init sdk config process).0 ≡ 0)
        × ((init sdk config process).1.subscriber ≡ some format)
  unfolding init
  init_set config process format set = elim (Result-cases (build_providers sdk config)) [
    | inl (providers, built) ↦ rw (built, set) (refl, refl)
    | inr (e, failed) ↦ rw failed (refl, set)
  ]

  successes_set :
      (calls : List Call) (process : Process P M) (format : LogFormat)
      → process.subscriber ≡ some format
      → successes calls process ≡ 0
  successes_set [] process format set = refl
  successes_set (shuts ∷ calls) process format set =
      successes_set calls (shutdown process) format (subscriber-shutdown process ∙ set)
  successes_set (inits config ∷ calls) process format set =
      let (fails, kept) = init_set config process format set in
      let rest = successes_set calls (init sdk config process).1 format kept in
      omega (arith, fails, rest)

  -- An `init` without a subscriber fails and sets none, or it sets one.
  init_unset :
      (config : Config) (process : Process P M)
      → process.subscriber ≡ none
      → ((success_of (init sdk config process).0 ≡ 0)
          × ((init sdk config process).1.subscriber ≡ none))
        ⊎ ((success_of (init sdk config process).0 ≤ 1)
            × ((init sdk config process).1.subscriber ≡ some config.log_format))
  unfolding init install
  init_unset config process unset = elim (Result-cases (build_providers sdk config)) [
    | inr (e, failed) ↦ inl (rw failed (refl, unset))
    | inl (providers, built) ↦ elim (Bool-cases process.poisoned) [
      | inl poisoned ↦
          inr (rw (built, unset, poisoned) (omega arith), rw (built, unset, poisoned) refl)
      | inr sound ↦ elim (Option-cases process.slot) [
        | inl empty ↦
            inr
              (rw (built, unset, sound, empty) (omega arith), rw (built, unset, sound, empty) refl)
        | inr (there, e) ↦
            inr (rw (built, unset, sound, e) (omega arith), rw (built, unset, sound, e) refl)
      ]
    ]
  ]

  -- However a process calls `init` and `shutdown`, at most one `init` succeeds.
  pub successes_bounded : (calls : List Call) (process : Process P M) → successes calls process ≤ 1
  successes_bounded [] process = omega arith
  successes_bounded (shuts ∷ calls) process = successes_bounded calls (shutdown process)
  successes_bounded (inits config ∷ calls) process = elim (Option-cases process.subscriber) [
    | inr (format, set) ↦
        let none_succeeds = successes_set (inits config ∷ calls) process format set in
        omega (arith, none_succeeds)
    | inl unset ↦ elim (init_unset config process unset) [
      | inl (fails, _) ↦
          let rest = successes_bounded calls (init sdk config process).1 in
          omega (arith, fails, rest)
      | inr (once, set) ↦
          let rest = successes_set calls (init sdk config process).1 config.log_format set in
          omega (arith, once, rest)
    ]
  ]
