-- ===== src/Db/Tests.antt =====
-- Runs of the functions of crates/altair-db/src, and the theorems at concrete inputs.
use altair_rs.Prelude.{ℕ, ◌+◌, ◌≡◌, refl, true, false, List}
use altair_rs.Prelude.Text.{String, codes}
use altair_rs.Prelude.Async.{ok, err}
use altair_rs.Db.Config.{postgres, sqlite, from_url, config_backend, configuration}
use altair_rs.Db.Handle.{Features, sqlite_backend, Orm, connect_db}
use altair_rs.Db.Scheme.{Reads, config_backend_lem}

upper_case :
    config_backend {D = ℕ} {M = ℕ} (from_url (codes " PostgreSQL://host/db ")) ≡ ok postgres
unfolding config_backend
upper_case = refl

-- A name without a colon is taken for a scheme.
bare_name : config_backend {D = ℕ} {M = ℕ} (from_url (codes "sqlite")) ≡ ok sqlite
unfolding config_backend
bare_name = refl

config_backend_lem_example :
    (text : List ℕ) × Reads {D = ℕ} {M = ℕ}
      (codes " oracle:x")
      text
      (config_backend (from_url (codes " oracle:x")))
config_backend_lem_example = config_backend_lem (from_url (codes " oracle:x"))

-- One connection, to SQLite. The outside state counts the migrations that ran.
abbrev orm : Orm ℕ ℕ String ℕ String String String
orm = record {
  connect = λ options w. (ok 0, w);
  database_backend = λ conn. sqlite_backend;
  postgres_pool = λ conn. "postgres";
  mysql_pool = λ conn. "mysql";
  sqlite_pool = λ conn. "sqlite";
  execute_raw = λ conn backend statement w. (ok tt, w);
  close = λ conn w. (ok tt, w);
  migrator = λ path w. (ok 3, w);
  run_migrations = λ migrator pool w. (ok tt, w + migrator);
}

abbrev sqlite_only : Features
sqlite_only = record { postgres_on = false; mysql_on = false; sqlite_on = true }

no_url :
    connect_db orm (from_url (codes "  ")) 0 ≡ (err (configuration (codes "url is required")), 0)
unfolding connect_db
no_url = refl
