-- ===== src/Wf/Datasync/Job.antt =====
-- crates/altair-wf/src/datasync/job.rs. `F` is the type of `f64` and `I` that of `i32`, which the
-- builder only stores.
use Prim.Native.Char.{Char, code}
use altair_rs.Prelude.{
  ℕ, ◌≡◌, ◌⊎◌, refl, inl, inr, Bool, true, false, ◌&&◌, Option, none, some, ◌==◌, if◌then◌else◌,
  Bool-cases,
}
use altair_rs.Prelude.Text.{is_whitespace_code, String}
use altair_rs.Wf.Error.{invalid_input, Result, ok, err, ◌>>=◌}
use altair_rs.Wf.Datasync.{Source, Mapper, Sink, Runner}

pub record Job (W T U F I : Type 0) : Type 0 where
  pub name : String
  pub source : Source W T
  pub mapper : Mapper W T U
  pub sink : Sink W U
  pub schedule : ℕ
  pub activity_timeout : ℕ
  pub heartbeat_timeout : ℕ
  pub max_retries : I
  pub retry_initial_interval : ℕ
  pub retry_backoff_coefficient : F
  pub retry_max_interval : ℕ

pub record SyncJobBuilder (W T U F I : Type 0) : Type 0 where
  pub name : String
  pub source : Option (Source W T)
  pub mapper : Option (Mapper W T U)
  pub sink : Option (Sink W U)
  pub schedule : ℕ
  pub activity_timeout : ℕ
  pub heartbeat_timeout : ℕ
  pub max_retries : I
  pub retry_initial_interval : ℕ
  pub retry_backoff_coefficient : F
  pub retry_max_interval : ℕ

-- `char::is_whitespace`.
abbrev pub is_whitespace : Char → Bool
is_whitespace c = is_whitespace_code (code c)

-- `trim().is_empty()`.
unfoldable pub is_blank : String → Bool
is_blank String.[] = true
is_blank (String.◌∷◌ c s) = is_whitespace c && is_blank s

abbrev pub or_missing : {A : Type 0} → String → Option A → Result A
or_missing message none = err (invalid_input message)
or_missing message (some a) = ok a

Option-cases : {A : Type 0} (o : Option A) → ((a : A) × (o ≡ some a)) ⊎ (o ≡ none)
Option-cases none = inr refl
Option-cases (some a) = inl (a, refl)

clash : {A : Type 0} (o : Option A) (a : A) → o ≡ none → o ≡ some a → ⊥
clash o a missing set = cc

module _ {W T U F I : Type 0} where
  -- `SyncJobBuilder::new`, on the zeros of the two number types.
  abbrev pub new_builder : F → I → String → SyncJobBuilder W T U F I
  new_builder zero_f64 zero_i32 name = record {
    name = name;
    source = none;
    mapper = none;
    sink = none;
    schedule = 0;
    activity_timeout = 0;
    heartbeat_timeout = 0;
    max_retries = zero_i32;
    retry_initial_interval = 0;
    retry_backoff_coefficient = zero_f64;
    retry_max_interval = 0;
  }

  abbrev pub with_source : Source W T → SyncJobBuilder W T U F I → SyncJobBuilder W T U F I
  with_source source builder = record builder { source = some source }

  abbrev pub with_mapper : Mapper W T U → SyncJobBuilder W T U F I → SyncJobBuilder W T U F I
  with_mapper mapper builder = record builder { mapper = some mapper }

  abbrev pub with_sink : Sink W U → SyncJobBuilder W T U F I → SyncJobBuilder W T U F I
  with_sink sink builder = record builder { sink = some sink }

  abbrev pub with_schedule : ℕ → SyncJobBuilder W T U F I → SyncJobBuilder W T U F I
  with_schedule schedule builder = record builder { schedule = schedule }

  abbrev pub with_activity_timeout : ℕ → SyncJobBuilder W T U F I → SyncJobBuilder W T U F I
  with_activity_timeout timeout builder = record builder { activity_timeout = timeout }

  abbrev pub with_heartbeat_timeout : ℕ → SyncJobBuilder W T U F I → SyncJobBuilder W T U F I
  with_heartbeat_timeout timeout builder = record builder { heartbeat_timeout = timeout }

  abbrev pub with_job_retries : I → SyncJobBuilder W T U F I → SyncJobBuilder W T U F I
  with_job_retries max_retries builder = record builder { max_retries = max_retries }

  abbrev pub with_retry_initial_interval : ℕ → SyncJobBuilder W T U F I → SyncJobBuilder W T U F I
  with_retry_initial_interval interval builder = record builder {
    retry_initial_interval = interval;
  }

  abbrev pub with_retry_backoff_coefficient :
      F → SyncJobBuilder W T U F I → SyncJobBuilder W T U F I
  with_retry_backoff_coefficient coeff builder = record builder {
    retry_backoff_coefficient = coeff;
  }

  abbrev pub with_retry_max_interval : ℕ → SyncJobBuilder W T U F I → SyncJobBuilder W T U F I
  with_retry_max_interval interval builder = record builder { retry_max_interval = interval }

  -- The job, from the parts.
  abbrev pub job_of :
      SyncJobBuilder W T U F I → Source W T → Mapper W T U → Sink W U → Job W T U F I
  job_of self source mapper sink = record {
    name = self.name;
    source = source;
    mapper = mapper;
    sink = sink;
    schedule = self.schedule;
    activity_timeout = self.activity_timeout;
    heartbeat_timeout = self.heartbeat_timeout;
    max_retries = self.max_retries;
    retry_initial_interval = self.retry_initial_interval;
    retry_backoff_coefficient = self.retry_backoff_coefficient;
    retry_max_interval = self.retry_max_interval;
  }

  unfoldable pub build_job : SyncJobBuilder W T U F I → Result (Job W T U F I)
  unfolding is_blank
  build_job self =
      if is_blank self.name
      then err (invalid_input "job name is required")
      else or_missing "source is required" self.source >>= λ source.
          or_missing "mapper is required" self.mapper >>= λ mapper.
          or_missing "sink is required" self.sink >>= λ sink.
          (if self.schedule == 0
            then err (invalid_input "schedule must be > 0")
            else ok (job_of self source mapper sink))

  -- `Runner::from_job`.
  abbrev pub from_job : Job W T U F I → Runner W T U
  from_job job = record { source = job.source; mapper = job.mapper; sink = job.sink }

  -- The name is not blank, the parts are set and the schedule is not zero.
  abbrev pub IsReady : SyncJobBuilder W T U F I → Type 0
  IsReady self =
      (is_blank self.name ≡ false)
      × ((source : Source W T) × (self.source ≡ some source))
      × ((mapper : Mapper W T U) × (self.mapper ≡ some mapper))
      × ((sink : Sink W U) × (self.sink ≡ some sink))
      × ((self.schedule == 0) ≡ false)

  -- The job has the parts, the name and the schedule of the builder.
  abbrev pub IsJobOf : SyncJobBuilder W T U F I → Job W T U F I → Type 0
  IsJobOf self job =
      (self.source ≡ some job.source)
      × (self.mapper ≡ some job.mapper)
      × (self.sink ≡ some job.sink)
      × (job.name ≡ self.name)
      × (job.schedule ≡ self.schedule)

  -- A builder with a name that is not blank, with source, mapper and sink, and a schedule that is not
  -- zero is built into a job of these parts; any other is refused as an invalid input.
  pub build_job_lem :
      (self : SyncJobBuilder W T U F I)
      → (IsReady self × ((job : Job W T U F I) × (build_job self ≡ ok job) × IsJobOf self job))
        ⊎ (¬ IsReady self × ((message : String) × (build_job self ≡ err (invalid_input message))))
  unfolding build_job
  build_job_lem self = elim (Bool-cases (is_blank self.name)) [
    | inl blank ↦ inr (λ (not_blank, _, _, _, _). cc, ("job name is required", rw blank))
    | inr named ↦ elim (Option-cases self.source) [
      | inr missing ↦ inr (
        λ (_, (_, set), _, _, _). absurd (clash self.source _ missing set),
        ("source is required", rw (named, missing)),
      )
      | inl (source, has_source) ↦ elim (Option-cases self.mapper) [
        | inr missing ↦ inr (
          λ (_, _, (_, set), _, _). absurd (clash self.mapper _ missing set),
          ("mapper is required", rw (named, has_source, missing)),
        )
        | inl (mapper, has_mapper) ↦ elim (Option-cases self.sink) [
          | inr missing ↦ inr (
            λ (_, _, _, (_, set), _). absurd (clash self.sink _ missing set),
            ("sink is required", rw (named, has_source, has_mapper, missing)),
          )
          | inl (sink, has_sink) ↦ elim (Bool-cases (self.schedule == 0)) [
            | inl never ↦ inr (
              λ (_, _, _, _, set). cc,
              ("schedule must be > 0", rw (named, has_source, has_mapper, has_sink, never)),
            )
            | inr some_time ↦ inl (
              (named, (source, has_source), (mapper, has_mapper), (sink, has_sink), some_time),
              (
                job_of self source mapper sink,
                rw (named, has_source, has_mapper, has_sink, some_time),
                (has_source, has_mapper, has_sink, refl, refl),
              ),
            )
          ]
        ]
      ]
    ]
  ]
