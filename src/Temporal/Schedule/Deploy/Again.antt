-- ===== src/Temporal/Schedule/Deploy/Again.antt =====
-- crates/altair-temporal/src/schedule: a deployment repeated with the same builder.
use mathlib.Core.Path.{subst}
use altair_rs.Prelude.{inl, inr, true, ◌≡◌, refl, sym, ap, ◌∙◌, ◌≢◌, Option, none, some}
use altair_rs.Prelude.Text.{String}
use altair_rs.Prelude.Async.{ok, err}
use altair_rs.Temporal.Error.{configuration}
use altair_rs.Temporal.Schedule.{
  SpecParts, Schedule, CreateOptions, Schedules, Action, options_of, unwrap_or_default,
  validate_schedule, to_create_options, create, create_or_update,
}
use altair_rs.Temporal.Schedule.Server.{Server}
use altair_rs.Temporal.Schedule.Deploy.{noted, updated, deployed, Deploys, create_or_update_lem}

noted_again : (n : Option String) (old : String) → noted n (noted n old) ≡ noted n old
noted_again none old = refl
noted_again (some n) old = refl

noted_new : (n : Option String) → noted n (unwrap_or_default n) ≡ unwrap_or_default n
noted_new none = refl
noted_new (some n) = refl

pub deployed_again :
    {I : Type 0} (parts : SpecParts) (action : Action I) (o : Option (CreateOptions I))
    → deployed parts action (some (deployed parts action o)) ≡ deployed parts action o
deployed_again parts action none =
    ap (λ n. record (options_of parts action) { note = n }) (noted_new parts.note)
deployed_again parts action (some old) =
    ap (λ n. record (updated parts old) { note = n }) (noted_again parts.note old.note)

module _ {W B I U : Type 0} (client : Schedules W B I U) (server : Server client) where
  -- While the server answers, a second `create_or_update` with the same builder and id succeeds
  -- too, and leaves every schedule as the first has left it.
  pub create_or_update_twice :
      (id : String) (self : Schedule) (w w1 : W)
      → server.Answers w
      → create_or_update client id self w ≡ some (ok tt, w1)
      → (w2 : W) × (create_or_update client id self w1 ≡ some (ok tt, w2))
        × (server.held w2 id ≡ server.held w1 id)
        × ((other : String) → other ≢ id → server.held w2 other ≡ server.held w1 other)
  create_or_update_twice id self w w1 answers done =
      elim (create_or_update_lem client server id self w answers) [
        | inr (text, _, refused) ↦ cc
        | inl (action, _, inr (_, (e, v, refused, _, _))) ↦ cc
        | inl (action, _, inl (accepted, (v, ran, answers_v, now, _))) ↦
            let same : v ≡ w1 = cc in
            let answers1 = subst server.Answers same answers_v in
            let held1 =
              subst (λ x. server.held x id ≡ some (deployed self.spec action (server.held w id)))
                same now in
            again action answers1 accepted held1
              (create_or_update_lem client server id self w1 answers1)
      ]
    where
      same_options :
          (action action2 : Action I)
          → server.held w1 id ≡ some (deployed self.spec action (server.held w id))
          → deployed self.spec action2 (server.held w1 id)
            ≡ deployed self.spec action (server.held w id)
      same_options action action2 held1 =
          ap (deployed self.spec action2) held1 ∙ deployed_again self.spec action (server.held w id)

      again :
          (action : Action I)
          → server.Answers w1
          → server.accepts (deployed self.spec action (server.held w id)) ≡ true
          → server.held w1 id ≡ some (deployed self.spec action (server.held w id))
          → Deploys client server id self.spec
              (validate_schedule {B = B} self)
              (to_create_options self)
              (create_or_update client id self w1)
              w1
          → (w2 : W) × (create_or_update client id self w1 ≡ some (ok tt, w2))
            × (server.held w2 id ≡ server.held w1 id)
            × ((other : String) → other ≢ id → server.held w2 other ≡ server.held w1 other)
      again action answers1 accepted held1 (inr (text, bad, _)) =
          let stopped : create_or_update client id self w ≡ some (err (configuration text), w) =
            unfold create_or_update create in rw bad refl in
          cc (stopped, done)
      again action answers1 accepted held1 (inl (action2, _, inl (_, (w2, ran, _, now, rest)))) =
          (w2, ran, now ∙ ap some (same_options action action2 held1) ∙ sym held1, rest)
      again action answers1 accepted held1 (inl (action2, _, inr (refused, _))) =
          let same = ap server.accepts (same_options action action2 held1) in
          cc (same, accepted, refused)
