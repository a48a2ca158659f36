-- ===== src/Temporal/Schedule/Deploy.antt =====
-- crates/altair-temporal/src/schedule: what `create_or_update` leaves on the server, for the builder
-- by name and for the typed one.
pub mod Again
use mathlib.Core.Path.{subst}
use altair_rs.Prelude.{
  ◌≡◌, refl, sym, ap, ◌∙◌, ◌≢◌, ◌⊎◌, inl, inr, Bool, true, false, ◌||◌, Option, none, some,
  Bool-cases, Option-cases,
}
use altair_rs.Prelude.Text.{String}
use altair_rs.Prelude.Async.{ok, err}
use altair_rs.Temporal.Error.{Result, schedule_failed, configuration, configuration_of}
use altair_rs.Temporal.Schedule.{
  SpecParts, Schedule, CreateOptions, Schedules, Run, Action, to_spec, is_none, has_trigger,
  validate_schedule, to_create_options, options_of, action_of, start_typed, apply_spec_update,
  spec_update, update_note, send_create, or_update, create, update, create_or_update,
}
use altair_rs.Temporal.Schedule.Typed.{
  TypedSchedule, validate_typed, into_create_options, create_typed, create_or_update_typed,
}
use altair_rs.Temporal.Schedule.Server.{Server}
use altair_rs.Temporal.Schedule.Valid.{Checked, validate_schedule_lem, validate_typed_lem}

-- What an update makes of the options of a schedule: spec and pause are replaced, the note where
-- one is set, and the action stays.
abbrev pub noted : Option String → String → String
noted none old = old
noted (some n) old = n

abbrev pub updated : {I : Type 0} → SpecParts → CreateOptions I → CreateOptions I
updated parts old = record old {
  spec = to_spec parts;
  paused = parts.paused;
  note = noted parts.note old.note;
}

-- What a deployment leaves: the new options, or the old ones updated.
abbrev pub deployed :
    {I : Type 0} → SpecParts → Action I → Option (CreateOptions I) → CreateOptions I
deployed parts action none = options_of parts action
deployed parts action (some old) = updated parts old

module _ {W B I U : Type 0} (client : Schedules W B I U) (server : Server client)
    (id : String) where
  -- The run succeeds, the server holds `now` under the id, and the other schedules are as before.
  abbrev pub Leaves : Run W B → W → CreateOptions I → Type 0
  Leaves run w now =
      (w' : W) × (run ≡ some (ok tt, w'))
      × server.Answers w'
      × (server.held w' id ≡ some now)
      × ((other : String) → other ≢ id → server.held w' other ≡ server.held w other)

  -- The run fails with an error of the server, and the schedules are as before.
  abbrev pub Refuses : Run W B → W → Type 0
  Refuses run w =
      (e : B) × (w' : W) × (run ≡ some (err (schedule_failed e), w'))
      × (server.held w' id ≡ server.held w id)
      × ((other : String) → other ≢ id → server.held w' other ≡ server.held w other)

  -- The run leaves acceptable options; where they are not, it is refused.
  abbrev pub Settles : Run W B → W → CreateOptions I → Type 0
  Settles run w now =
      ((server.accepts now ≡ true) × Leaves run w now)
      ⊎ ((server.accepts now ≡ false) × Refuses run w)

  shows-update_note :
      (n : Option String) (u : U)
      → server.shows (update_note client id n u)
        ≡ record (server.shows u) { note = noted n (server.shows u).note }
  shows-update_note none u = refl
  shows-update_note (some n) u = server.shows-with_note n u

  shows-spec_update :
      (parts : SpecParts) (u : U)
      → server.shows (spec_update client id parts u) ≡ updated parts (server.shows u)
  shows-spec_update parts u =
      rw
        (
          shows-update_note parts.note
              (client.with_paused parts.paused (client.with_spec (to_spec parts) u)),
          server.shows-with_paused parts.paused (client.with_spec (to_spec parts) u),
          server.shows-with_spec (to_spec parts) u,
        )
        refl

  -- The update of a schedule that is there.
  apply_spec_update-Settles :
      (parts : SpecParts) (w : W) (old : CreateOptions I)
      → server.Answers w
      → server.held w id ≡ some old
      → Settles (some (apply_spec_update client id parts w)) w (updated parts old)
  unfolding apply_spec_update
  apply_spec_update-Settles parts w old answers there =
      let f = spec_update client id parts in
      let (u, from, outcome) = server.update_present id f old w answers there in
      let now = shows-spec_update parts u ∙ ap (updated parts) from in
      elim outcome [
        | inl (accepted, done, holds) ↦ inl (
          sym (ap server.accepts now) ∙ accepted,
          (
            (client.update_schedule id f w).1,
            rw done refl,
            server.update_answers id f w answers,
            holds ∙ ap some now,
            λ other different. server.update_elsewhere id other f w different,
          ),
        )
        | inr (refused, (e, failed), still) ↦ inr (
          sym (ap server.accepts now) ∙ refused,
          (
            e,
            (client.update_schedule id f w).1,
            rw failed refl,
            still ∙ sym there,
            λ other different. server.update_elsewhere id other f w different,
          ),
        )
      ]

  -- The update of a schedule that is not there.
  apply_spec_update-Refuses :
      (parts : SpecParts) (w : W)
      → server.Answers w
      → server.held w id ≡ none
      → Refuses (some (apply_spec_update client id parts w)) w
  unfolding apply_spec_update
  apply_spec_update-Refuses parts w answers absent =
      let f = spec_update client id parts in
      let ((e, failed), still) = server.update_absent id f w answers absent in
      (
        e,
        (client.update_schedule id f w).1,
        rw failed refl,
        still ∙ sym absent,
        λ other different. server.update_elsewhere id other f w different,
      )

  -- Runs from a state in which the schedules are as in an earlier one.
  module _ (w w1 : W) (here : server.held w1 id ≡ server.held w id)
      (elsewhere : (other : String) → other ≢ id → server.held w1 other ≡ server.held w other) where
    Refuses-from : {run run1 : Run W B} → run ≡ run1 → Refuses run1 w1 → Refuses run w
    Refuses-from same (e, w2, ran, holds, rest) = (
      e,
      w2,
      same ∙ ran,
      holds ∙ here,
      λ other different. rest other different ∙ elsewhere other different,
    )

    Settles-from :
        {run run1 : Run W B} {now : CreateOptions I}
        → run ≡ run1
        → Settles run1 w1 now
        → Settles run w now
    Settles-from same (inr (refused, refuses)) = inr (refused, Refuses-from same refuses)
    Settles-from same (inl (accepted, (w2, ran, answers, holds, rest))) = inl (
      accepted,
      (
        w2,
        same ∙ ran,
        answers,
        holds,
        λ other different. rest other different ∙ elsewhere other different,
      ),
    )

  -- What both `create_or_update` do with the options of a validated builder.
  deploy-Settles :
      (parts : SpecParts) (action : Action I) (fallback : W → Run W B) (w : W)
      → server.Answers w
      → ((w1 : W) → fallback w1 ≡ some (apply_spec_update client id parts w1))
      → Settles
          (or_update (send_create client id (some (options_of parts action)) w) fallback)
          w
          (deployed parts action (server.held w id))
  deploy-Settles parts action fallback w answers falls =
      let o = options_of parts action in
      let aims : Option (CreateOptions I) → Type 0 = λ held.
        Settles (or_update (send_create client id (some o) w) fallback) w
          (deployed parts action held) in
      let w1 = (client.create_schedule id o w).1 in
      let answers1 = server.create_answers id o w answers in
      let others : (other : String) → other ≢ id → server.held w1 other ≡ server.held w other =
        λ other different. server.create_elsewhere id other o w different in
      elim (Option-cases (server.held w id)) [
        | inl absent ↦ elim (Bool-cases (server.accepts o)) [
          | inl accepted ↦
              let (done, now) = server.create_new id o w answers absent accepted in
              rw (absent, done) (inl (accepted, (w1, refl, answers1, now, others)))
          | inr refused ↦
              let ((e, failed), still) = server.create_refused id o w answers absent refused in
              let run : or_update (send_create client id (some o) w) fallback ≡ fallback w1 =
                rw failed refl in
              subst aims (sym absent) (
                inr (
                  refused,
                  Refuses-from w w1 (still ∙ sym absent) others (run ∙ falls w1)
                      (apply_spec_update-Refuses parts w1 answers1 still),
                ))
        ]
        | inr (old, there) ↦
            let ((e, failed), still) = server.create_present id o old w answers there in
            let run : or_update (send_create client id (some o) w) fallback ≡ fallback w1 =
              rw failed refl in
            subst aims (sym there) (
              Settles-from w w1 (still ∙ sym there) others (run ∙ falls w1)
                (apply_spec_update-Settles parts w1 old answers1 still))
      ]

  -- A validated builder is deployed; any other answers its error, and nothing happens.
  abbrev pub Deploys :
      SpecParts → Result (Unit {0}) B String → Option (CreateOptions I) → Run W B → W → Type 0
  Deploys parts answer options run w =
      ((action : Action I) × (options ≡ some (options_of parts action))
        × Settles run w (deployed parts action (server.held w id)))
      ⊎ ((text : String) × (answer ≡ err (configuration text))
          × (run ≡ some (err (configuration text), w)))

  -- While the server answers, `create_or_update` with a validated builder aims at the options of
  -- the builder under its id where there was no schedule, and otherwise at the old options with the
  -- spec, the pause, and the note if one is set, of the builder. Where the server accepts them, it
  -- succeeds and leaves them; where not, it fails with an error of the server and leaves the id as
  -- it was. All other schedules stay. A builder that is not valid is refused and the server is not
  -- called.
  pub create_or_update_lem :
      (self : Schedule) (w : W)
      → server.Answers w
      → Deploys self.spec
          (validate_schedule self)
          (to_create_options self)
          (create_or_update client id self w)
          w
  unfolding create_or_update create update
  create_or_update_lem self w answers = elim (validate_schedule_lem {B = B} {I = I} self) [
    | inr (text, refused) ↦ inr (text, refused, rw refused refl)
    | inl (valid, action, given) ↦ inl (
      action,
      given,
      rw (valid, given)
          (deploy-Settles self.spec action (update client id self) w answers
            (λ w1. unfold update in rw valid refl)),
    )
  ]

  -- The same of the typed builder.
  pub create_or_update_typed_lem :
      (self : TypedSchedule I) (w : W)
      → server.Answers w
      → Deploys self.spec
          (validate_typed self)
          (into_create_options self)
          (create_or_update_typed client id self w)
          w
  unfolding create_or_update_typed create_typed
  create_or_update_typed_lem self w answers = elim (validate_typed_lem {B = B} {I = I} self) [
    | inr (text, refused) ↦ inr (text, refused, rw refused refl)
    | inl (valid, action, given) ↦ inl (
      action,
      given,
      rw (valid, given)
          (deploy-Settles self.spec action (λ w1. some (apply_spec_update client id self.spec w1)) w
            answers (λ w1. refl)),
    )
  ]
