-- ===== src/Db/Migrations.antt =====
-- crates/altair-db/src/db.rs: the pool that `migrate` runs on.
use altair_rs.Prelude.{◌≡◌, refl, ◌⊎◌, inl, inr, Bool, some, if◌then◌else◌}
use altair_rs.Prelude.Async.{ok, err, map_error, Result-cases}
use altair_rs.Db.Config.{Result, migration_failed, Backend, postgres, mysql, sqlite}
use altair_rs.Db.Handle.{
  Features, DatabaseBackend, postgres_backend, mysql_backend, sqlite_backend, other_backend, Orm,
  db_backend, as_backend, not_enabled, migrate, migrate_on,
}

-- Whether the driver of a backend is compiled in.
abbrev pub enabled : Features → Backend → Bool
enabled features postgres = features.postgres_on
enabled features mysql = features.mysql_on
enabled features sqlite = features.sqlite_on

module _ {W C Q G A D M : Type 0} (orm : Orm W C Q G A D M) where
  -- The pool of a backend.
  abbrev pub pool_for : Backend → C → Q
  pool_for postgres conn = orm.postgres_pool conn
  pool_for mysql conn = orm.mysql_pool conn
  pool_for sqlite conn = orm.sqlite_pool conn

  abbrev pub ran : G → Q → W → Result (Unit {0}) D M × W
  ran migrator pool w = (
    map_error migration_failed (orm.run_migrations migrator pool w).0,
    (orm.run_migrations migrator pool w).1,
  )

  migrate_on-pool :
      (features : Features) (conn : C) (migrator : G) (backend : Backend) (w : W)
      → db_backend orm conn ≡ some backend
      → migrate_on orm features conn migrator (some backend) w
        ≡ some (
            if enabled features backend
            then ran migrator (pool_for backend conn) w
            else not_enabled orm backend w)
  migrate_on-pool features conn migrator backend w e =
      by_backend backend (orm.database_backend conn) refl e
    where
      by_backend :
          (backend : Backend) (there : DatabaseBackend)
          → orm.database_backend conn ≡ there
          → as_backend there ≡ some backend
          → migrate_on orm features conn migrator (some backend) w
            ≡ some (
                if enabled features backend
                then ran migrator (pool_for backend conn) w
                else not_enabled orm backend w)
      by_backend postgres postgres_backend h e = rw h refl
      by_backend mysql mysql_backend h e = rw h refl
      by_backend sqlite sqlite_backend h e = rw h refl
      by_backend postgres mysql_backend h e = cc
      by_backend postgres sqlite_backend h e = cc
      by_backend postgres other_backend h e = cc
      by_backend mysql postgres_backend h e = cc
      by_backend mysql sqlite_backend h e = cc
      by_backend mysql other_backend h e = cc
      by_backend sqlite postgres_backend h e = cc
      by_backend sqlite mysql_backend h e = cc
      by_backend sqlite other_backend h e = cc

  -- On a connection to one of the three backends `migrate` does not panic, and never misses a
  -- pool: it answers the error of the migrator, or runs the migrations on the pool of the backend
  -- where its driver is compiled in, or answers that it is not.
  pub migrate_lem :
      (features : Features) (conn : C) (path : A) (backend : Backend) (w : W)
      → db_backend orm conn ≡ some backend
      → ((e : M) × ((orm.migrator path w).0 ≡ err e)
          × (migrate orm features conn path w
              ≡ some (err (migration_failed e), (orm.migrator path w).1)))
        ⊎ ((migrator : G) × ((orm.migrator path w).0 ≡ ok migrator)
            × (migrate orm features conn path w
                ≡ some (
                    if enabled features backend
                    then ran migrator (pool_for backend conn) (orm.migrator path w).1
                    else not_enabled orm backend (orm.migrator path w).1)))
  unfolding migrate
  migrate_lem features conn path backend w e = elim (Result-cases (orm.migrator path w).0) [
    | inr (m, failed) ↦ inl (m, failed, rw failed refl)
    | inl (migrator, read) ↦ inr (
      migrator,
      read,
      rw (read, e) (migrate_on-pool features conn migrator backend (orm.migrator path w).1 e),
    )
  ]
