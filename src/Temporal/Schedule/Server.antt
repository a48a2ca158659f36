-- ===== src/Temporal/Schedule/Server.antt =====
-- What the documentation of Temporal states of its schedules, for the client that
-- crates/altair-temporal/src/schedule calls. While the server answers, to create fails exactly where
-- the id is taken or the options are not acceptable, and to update where there is no schedule or the
-- outcome is not acceptable; such a refusal changes nothing.
use altair_rs.Prelude.{◌≡◌, ◌≢◌, ◌⊎◌, Bool, true, false, Option, none, some}
use altair_rs.Prelude.Text.{String}
use altair_rs.Prelude.Async.{ok, err}
use altair_rs.Temporal.Schedule.{ScheduleSpec, CreateOptions, Schedules}

pub record Server {W B I U : Type 0} (client : Schedules W B I U) : Type 1 where
  -- The schedules that the server holds, and whether it answers.
  pub held : W → String → Option (CreateOptions I)
  pub Answers : W → Type 0
  -- Whether it accepts options: it parses their cron strings and their timezone, for one.
  pub accepts : CreateOptions I → Bool
  -- What an update starts from.
  pub shows : U → CreateOptions I
  pub shows-with_spec :
      (spec : ScheduleSpec) (u : U)
      → shows (client.with_spec spec u) ≡ record (shows u) { spec = spec }
  pub shows-with_paused :
      (p : Bool) (u : U) → shows (client.with_paused p u) ≡ record (shows u) { paused = p }
  pub shows-with_note :
      (n : String) (u : U) → shows (client.with_note n u) ≡ record (shows u) { note = n }
  pub create_new :
      (id : String) (o : CreateOptions I) (w : W)
      → Answers w
      → held w id ≡ none
      → accepts o ≡ true
      → ((client.create_schedule id o w).0 ≡ ok tt)
        × (held (client.create_schedule id o w).1 id ≡ some o)
  pub create_refused :
      (id : String) (o : CreateOptions I) (w : W)
      → Answers w
      → held w id ≡ none
      → accepts o ≡ false
      → ((e : B) × ((client.create_schedule id o w).0 ≡ err e))
        × (held (client.create_schedule id o w).1 id ≡ none)
  pub create_present :
      (id : String) (o old : CreateOptions I) (w : W)
      → Answers w
      → held w id ≡ some old
      → ((e : B) × ((client.create_schedule id o w).0 ≡ err e))
        × (held (client.create_schedule id o w).1 id ≡ some old)
  pub create_answers :
      (id : String) (o : CreateOptions I) (w : W)
      → Answers w
      → Answers (client.create_schedule id o w).1
  pub create_elsewhere :
      (id other : String) (o : CreateOptions I) (w : W)
      → other ≢ id
      → held (client.create_schedule id o w).1 other ≡ held w other
  -- An update is made of what is there, and is refused where the outcome is not acceptable.
  pub update_present :
      (id : String) (f : U → U) (old : CreateOptions I) (w : W)
      → Answers w
      → held w id ≡ some old
      → (u : U) × (shows u ≡ old)
        × (((accepts (shows (f u)) ≡ true)
              × ((client.update_schedule id f w).0 ≡ ok tt)
              × (held (client.update_schedule id f w).1 id ≡ some (shows (f u))))
            ⊎ ((accepts (shows (f u)) ≡ false)
                × ((e : B) × ((client.update_schedule id f w).0 ≡ err e))
                × (held (client.update_schedule id f w).1 id ≡ some old)))
  pub update_absent :
      (id : String) (f : U → U) (w : W)
      → Answers w
      → held w id ≡ none
      → ((e : B) × ((client.update_schedule id f w).0 ≡ err e))
        × (held (client.update_schedule id f w).1 id ≡ none)
  pub update_answers :
      (id : String) (f : U → U) (w : W) → Answers w → Answers (client.update_schedule id f w).1
  pub update_elsewhere :
      (id other : String) (f : U → U) (w : W)
      → other ≢ id
      → held (client.update_schedule id f w).1 other ≡ held w other
