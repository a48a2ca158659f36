-- ===== src/Db/Handle.antt =====
-- crates/altair-db/src/db.rs. The crates sea-orm and sqlx are the parameter `Orm`; `W` is everything
-- outside of the crate. A panic is none.
use altair_rs.Prelude.{
  ℕ, Bool, true, false, Option, none, some, List, ◌++◌, is_empty, if◌then◌else◌,
}
use altair_rs.Prelude.Text.{codes}
use altair_rs.Prelude.Async.{Fut, Result as AsyncResult, ok, err, map_error}
use altair_rs.Db.Config.{
  Result, connect_failed, migration_failed, configuration, orm_failed, Backend, postgres, mysql,
  sqlite, Config, trim, ConnectOptions, build_options,
}

-- `sea_orm::DatabaseBackend`, which may have more variants.
pub data DatabaseBackend : Type 0 where
  postgres_backend mysql_backend sqlite_backend other_backend : DatabaseBackend

-- The features that the crate is built with.
pub record Features : Type 0 where
  pub postgres_on : Bool
  pub mysql_on : Bool
  pub sqlite_on : Bool

-- `C` is the type of connections, `Q` of pools, `G` of migrators, `A` of paths.
pub record Orm (W C Q G A D M : Type 0) : Type 0 where
  pub connect : ConnectOptions → Fut W (AsyncResult C D)
  pub database_backend : C → DatabaseBackend
  pub postgres_pool : C → Q
  pub mysql_pool : C → Q
  pub sqlite_pool : C → Q
  pub execute_raw : C → DatabaseBackend → List ℕ → Fut W (AsyncResult (Unit {0}) D)
  pub close : C → Fut W (AsyncResult (Unit {0}) D)
  pub migrator : A → Fut W (AsyncResult G M)
  pub run_migrations : G → Q → Fut W (AsyncResult (Unit {0}) M)

-- `Db::backend`, on the backend of the connection.
abbrev pub as_backend : DatabaseBackend → Option Backend
as_backend postgres_backend = some postgres
as_backend mysql_backend = some mysql
as_backend sqlite_backend = some sqlite
as_backend other_backend = none

-- The comparisons of `pg_pool`, `mysql_pool` and `sqlite_pool`.
abbrev pub is_postgres : DatabaseBackend → Bool
is_postgres postgres_backend = true
is_postgres _ = false

abbrev pub is_mysql : DatabaseBackend → Bool
is_mysql mysql_backend = true
is_mysql _ = false

abbrev pub is_sqlite : DatabaseBackend → Bool
is_sqlite sqlite_backend = true
is_sqlite _ = false

-- `{other:?}`.
abbrev pub debug_backend : Backend → List ℕ
debug_backend postgres = codes "Postgres"
debug_backend mysql = codes "MySql"
debug_backend sqlite = codes "Sqlite"

module _ {W C Q G A D M : Type 0} (orm : Orm W C Q G A D M) where
  -- `Db::connect`. The handle is its connection.
  unfoldable pub connect_db : Config → Fut W (Result C D M)
  connect_db config w =
      if is_empty (trim config.url)
      then (err (configuration (codes "url is required")), w)
      else connected (orm.connect (build_options config) w)
    where
      connected : AsyncResult C D × W → Result C D M × W
      connected (answer, w') = (map_error connect_failed answer, w')

  abbrev pub db_backend : C → Option Backend
  db_backend conn = as_backend (orm.database_backend conn)

  abbrev pub pg_pool : C → Option Q
  pg_pool conn =
      if is_postgres (orm.database_backend conn) then some (orm.postgres_pool conn) else none

  abbrev pub mysql_pool_of : C → Option Q
  mysql_pool_of conn =
      if is_mysql (orm.database_backend conn) then some (orm.mysql_pool conn) else none

  abbrev pub sqlite_pool_of : C → Option Q
  sqlite_pool_of conn =
      if is_sqlite (orm.database_backend conn) then some (orm.sqlite_pool conn) else none

  abbrev pub ping : C → Fut W (Result (Unit {0}) D M)
  ping conn w =
      let (answer, w') = orm.execute_raw conn (orm.database_backend conn) (codes "SELECT 1") w in
      (map_error orm_failed answer, w')

  abbrev pub close_db : C → Fut W (Result (Unit {0}) D M)
  close_db conn w = let (answer, w') = orm.close conn w in (map_error orm_failed answer, w')

  -- An arm of `migrate`: a feature that is off falls to the last arm.
  abbrev pub migrate_pool : G → List ℕ → Option Q → Fut W (Result (Unit {0}) D M)
  migrate_pool migrator name none w = (err (configuration (name ++ codes " pool missing")), w)
  migrate_pool migrator name (some pool) w =
      let (answer, w') = orm.run_migrations migrator pool w in
      (map_error migration_failed answer, w')

  abbrev pub not_enabled : Backend → Fut W (Result (Unit {0}) D M)
  not_enabled backend w = (
    err (
        configuration (
          codes "backend "
          ++ (debug_backend backend ++ codes " is not enabled in this build of altair-db"))),
    w,
  )

  abbrev pub migrate_on : Features → C → G → Option Backend → W → Option (Result (Unit {0}) D M × W)
  migrate_on features conn migrator none w = none
  migrate_on features conn migrator (some postgres) w = some (
      if features.postgres_on
      then migrate_pool migrator (codes "postgres") (pg_pool conn) w
      else not_enabled postgres w)
  migrate_on features conn migrator (some mysql) w = some (
      if features.mysql_on
      then migrate_pool migrator (codes "mysql") (mysql_pool_of conn) w
      else not_enabled mysql w)
  migrate_on features conn migrator (some sqlite) w = some (
      if features.sqlite_on
      then migrate_pool migrator (codes "sqlite") (sqlite_pool_of conn) w
      else not_enabled sqlite w)

  abbrev pub with_migrator : Features → C → AsyncResult G M × W → Option (Result (Unit {0}) D M × W)
  with_migrator features conn (err e, w) = some (err (migration_failed e), w)
  with_migrator features conn (ok migrator, w) =
      migrate_on features conn migrator (db_backend conn) w

  -- `Db::migrate`.
  unfoldable pub migrate : Features → C → A → W → Option (Result (Unit {0}) D M × W)
  migrate features conn path w = with_migrator features conn (orm.migrator path w)
