-- ===== src/Temporal/Tests/Schedules.antt =====
-- The schedules of crates/altair-temporal/src/schedule on a server that is a function from ids.
use altair_rs.Prelude.{
  ℕ, ◌≡◌, refl, ◌≢◌, ◌⊎◌, inl, inr, Bool, Bool-cases, true, false, Option, none, some, [], ◌∷◌,
  arith, if◌then◌else◌,
}
use altair_rs.Prelude.Text.{String, str_eq, eq_iff, eq_refl}
use altair_rs.Prelude.Async.{Result as AsyncResult, ok, err}
use altair_rs.Temporal.Schedule.{
  Schedule, CreateOptions, Schedules, new_schedule, add_cron, start_workflow, validate_schedule,
  to_create_options, start_named, start_named, create_or_update, delete_if_exists, create, update,
}
use altair_rs.Temporal.Schedule.Server.{Server}
use altair_rs.Temporal.Schedule.Typed.{
  TypedSchedule, new_typed, typed_input, typed_task_queue, typed_workflow_id, create_typed,
  update_typed, create_or_update_typed,
}
use altair_rs.Temporal.Schedule.Deploy.{Deploys, create_or_update_lem}
use altair_rs.Temporal.Schedule.Deploy.Again.{create_or_update_twice}
use altair_rs.Temporal.Schedule.Total.{Returns, operations_return}

abbrev Options : Type 0
Options = CreateOptions ℕ

-- The schedules that are held.
abbrev World : Type 0
World = String → Option Options

abbrev put : String → Option Options → World → World
put id o w = λ k. if str_eq k id then o else w k

-- One timezone is not known.
abbrev accepts : Options → Bool
accepts o = if str_eq o.spec.timezone_name "Mars" then false else true

abbrev create_at : String → Options → World → Option Options → AsyncResult (Unit {0}) String × World
create_at id o w none = if accepts o then (ok tt, put id (some o) w) else (err "timezone", w)
create_at id o w (some old) = (err "already exists", w)

abbrev update_at :
    String → (Options → Options) → World → Option Options → AsyncResult (Unit {0}) String × World
update_at id f w none = (err "not found", w)
update_at id f w (some old) =
    if accepts (f old) then (ok tt, put id (some (f old)) w) else (err "timezone", w)

abbrev delete_at : String → World → Option Options → AsyncResult (Unit {0}) String × World
delete_at id w none = (err "not found", w)
delete_at id w (some old) = (ok tt, put id none w)

abbrev table : Schedules World String ℕ Options
table = record {
  create_schedule = λ id o w. create_at id o w (w id);
  update_schedule = λ id f w. update_at id f w (w id);
  delete_schedule = λ id w. delete_at id w (w id);
  with_spec = λ spec u. record u { spec = spec };
  with_paused = λ p u. record u { paused = p };
  with_note = λ n u. record u { note = n };
}

put_here : (id : String) (o : Option Options) (w : World) → put id o w id ≡ o
put_here id o w = rw (eq_refl id) refl

put_elsewhere :
    (id other : String) (o : Option Options) (w : World) → other ≢ id → put id o w other ≡ w other
put_elsewhere id other o w different =
    let apart : str_eq other id ≡ false = ground (arith, eq_iff other id) in rw apart refl

create_elsewhere :
    (id other : String) (o : Options) (w : World) (held : Option Options)
    → other ≢ id
    → (create_at id o w held).1 other ≡ w other
create_elsewhere id other o w none h = elim (Bool-cases (accepts o)) [
  | inl fine ↦ rw fine (put_elsewhere id other (some o) w h)
  | inr bad ↦ rw bad refl
]
create_elsewhere id other o w (some old) h = refl

update_elsewhere :
    (id other : String) (f : Options → Options) (w : World) (held : Option Options)
    → other ≢ id
    → (update_at id f w held).1 other ≡ w other
update_elsewhere id other f w none h = refl
update_elsewhere id other f w (some old) h = elim (Bool-cases (accepts (f old))) [
  | inl fine ↦ rw fine (put_elsewhere id other (some (f old)) w h)
  | inr bad ↦ rw bad refl
]

created :
    (id : String) (o : Options) (w : World)
    → w id ≡ none
    → accepts o ≡ true
    → ((table.create_schedule id o w).0 ≡ ok tt) × ((table.create_schedule id o w).1 id ≡ some o)
created id o w h fine = (rw (h, fine) refl, rw (h, fine) (put_here id (some o) w))

refused :
    (id : String) (o : Options) (w : World)
    → w id ≡ none
    → accepts o ≡ false
    → ((e : String) × ((table.create_schedule id o w).0 ≡ err e))
      × ((table.create_schedule id o w).1 id ≡ none)
refused id o w h bad = (("timezone", rw (h, bad) refl), rw (h, bad) h)

updates :
    (id : String) (f : Options → Options) (old : Options) (w : World)
    → w id ≡ some old
    → ((accepts (f old) ≡ true)
        × ((table.update_schedule id f w).0 ≡ ok tt)
        × ((table.update_schedule id f w).1 id ≡ some (f old)))
      ⊎ ((accepts (f old) ≡ false)
          × ((e : String) × ((table.update_schedule id f w).0 ≡ err e))
          × ((table.update_schedule id f w).1 id ≡ some old))
updates id f old w h = elim (Bool-cases (accepts (f old))) [
  | inl fine ↦ inl (fine, rw (h, fine) refl, rw (h, fine) (put_here id (some (f old)) w))
  | inr bad ↦ inr (bad, ("timezone", rw (h, bad) refl), rw (h, bad) h)
]

abbrev serves : Server table
serves = record {
  held = λ w. w;
  Answers = λ w. Unit {0};
  accepts = accepts;
  shows = λ u. u;
  shows-with_spec = λ spec u. refl;
  shows-with_paused = λ p u. refl;
  shows-with_note = λ n u. refl;
  create_new = λ id o w _ h fine. created id o w h fine;
  create_refused = λ id o w _ h bad. refused id o w h bad;
  create_present = λ id o old w _ h. rw h (("already exists", refl), h);
  create_answers = λ id o w h. tt;
  create_elsewhere = λ id other o w h. create_elsewhere id other o w (w id) h;
  update_present = λ id f old w _ h. (old, refl, updates id f old w h);
  update_absent = λ id f w _ h. (rw h ("not found", refl), rw h h);
  update_answers = λ id f w h. tt;
  update_elsewhere = λ id other f w h. update_elsewhere id other f w (w id) h;
}

-- Every day at nine, with no note.
abbrev daily : Schedule
daily =
    start_workflow "Archive" "tq" "archive"
      (record new_schedule { spec = add_cron "0 9 * * *" new_schedule.spec })

abbrev typed_daily : TypedSchedule ℕ
typed_daily =
    typed_workflow_id "archive"
      (typed_task_queue "tq" (typed_input 42 (record (new_typed {I = ℕ}) { spec = daily.spec })))

abbrev daily_options : Options
daily_options = record {
  action = start_named "Archive" "tq" "archive";
  spec = record { cron_strings = "0 9 * * *" ∷ []; intervals = []; timezone_name = "" };
  paused = false;
  note = "";
}

-- The daily schedule exists, paused by hand and with a note.
abbrev paused_world : World
paused_world =
    put "daily" (some (record daily_options { paused = true; note = "by hand" })) (λ id. none)

-- An update without a note leaves the old one.
keeps_note :
    create_or_update table "daily" daily paused_world
    ≡ some (ok tt, put "daily" (some (record daily_options { note = "by hand" })) paused_world)
unfolding create_or_update
keeps_note = refl

no_trigger : Returns (create_or_update table "daily" new_schedule paused_world)
unfolding create_or_update
no_trigger = (_, refl)

-- A deletion of a schedule that is not there.
deleted_absent : delete_if_exists table "weekly" paused_world ≡ (ok tt, paused_world)
unfolding delete_if_exists
deleted_absent = refl

create_or_update_lem_example :
    Deploys table serves "daily" daily.spec
      (validate_schedule daily)
      (to_create_options daily)
      (create_or_update table "daily" daily paused_world)
      paused_world
create_or_update_lem_example = create_or_update_lem table serves "daily" daily paused_world tt

create_or_update_twice_example :
    (w2 : World) × (create_or_update table "daily" daily
        (put "daily" (some (record daily_options { note = "by hand" })) paused_world)
      ≡ some (ok tt, w2))
    × (w2 "daily" ≡ some (record daily_options { note = "by hand" }))
    × ((other : String)
        → other ≢ "daily"
        → w2 other
          ≡ put "daily" (some (record daily_options { note = "by hand" })) paused_world other)
create_or_update_twice_example =
    create_or_update_twice table serves "daily" daily paused_world
      (put "daily" (some (record daily_options { note = "by hand" })) paused_world) tt keeps_note

operations_return_example :
    Returns (create table "daily" daily paused_world)
    × Returns (update table "daily" daily paused_world)
    × Returns (create_or_update table "daily" daily paused_world)
    × Returns (create_typed table "daily" typed_daily paused_world)
    × Returns (update_typed table "daily" typed_daily paused_world)
    × Returns (create_or_update_typed table "daily" typed_daily paused_world)
operations_return_example = operations_return table "daily" daily typed_daily paused_world
