-- ===== src/Db/Config.antt =====
-- crates/altair-db/src: config.rs, connect.rs and error.rs. A text is the list of its code points, a
-- `Duration` its number of nanoseconds.
use altair_rs.Prelude.{
  ℕ, ◌+◌, Bool, true, false, ◌&&◌, Option, some, List, [], ◌∷◌, ◌++◌, map, is_empty, leb, ◌==◌,
  if◌then◌else◌,
}
use altair_rs.Prelude.Text.{codes, is_whitespace_code}
use altair_rs.Prelude.Async.{Result as AsyncResult, ok, err}
use altair_rs.Retry.Config.{from_secs}

-- `D` is the type of errors of sea-orm, `M` that of migrations.
pub data Error (D M : Type 0) : Type 0 where
  connect_failed : D → Error D M
  migration_failed : M → Error D M
  configuration : List ℕ → Error D M
  orm_failed : D → Error D M

abbrev pub Result : Type 0 → Type 0 → Type 0 → Type 0
Result T D M = AsyncResult T (Error D M)

pub data Backend : Type 0 where
  postgres mysql sqlite : Backend

pub record Config : Type 0 where
  pub url : List ℕ
  pub max_connections : ℕ
  pub min_connections : ℕ
  pub acquire_timeout : ℕ
  pub idle_timeout : Option ℕ
  pub max_lifetime : Option ℕ
  pub sqlx_logging : Bool
  pub sqlx_slow_query_threshold : ℕ

-- `Config::from_url`, and the default, whose url is empty.
abbrev pub from_url : List ℕ → Config
from_url url = record {
  url = url;
  max_connections = 10;
  min_connections = 1;
  acquire_timeout = from_secs 30;
  idle_timeout = some (from_secs 600);
  max_lifetime = some (from_secs 1800);
  sqlx_logging = true;
  sqlx_slow_query_threshold = from_secs 1;
}

-- `str::trim`.
abbrev pub trim_start : List ℕ → List ℕ
trim_start [] = []
trim_start (c ∷ text) = if is_whitespace_code c then trim_start text else c ∷ text

abbrev pub before_blank : ℕ → List ℕ → List ℕ
before_blank c text = if is_empty text && is_whitespace_code c then [] else c ∷ text

abbrev pub trim_end : List ℕ → List ℕ
trim_end [] = []
trim_end (c ∷ text) = before_blank c (trim_end text)

abbrev pub trim : List ℕ → List ℕ
trim text = trim_end (trim_start text)

-- `url.split_once(':').map_or(url, |(s, _)| s)`.
abbrev pub before_colon : List ℕ → List ℕ
before_colon [] = []
before_colon (c ∷ text) = if c == b':' then [] else c ∷ before_colon text

abbrev pub ascii_lower : ℕ → ℕ
ascii_lower c = if leb b'A' c && leb c b'Z' then c + 32 else c

-- `str` equality.
abbrev pub text_eq : List ℕ → List ℕ → Bool
text_eq [] [] = true
text_eq [] (d ∷ ds) = false
text_eq (c ∷ cs) [] = false
text_eq (c ∷ cs) (d ∷ ds) = c == d && text_eq cs ds

-- The match on the scheme.
unfoldable pub backend_of : {D M : Type 0} → List ℕ → Result Backend D M
backend_of scheme =
    if text_eq scheme (codes "postgres")
    then ok postgres
    else if text_eq scheme (codes "postgresql")
    then ok postgres
    else if text_eq scheme (codes "mysql")
    then ok mysql
    else if text_eq scheme (codes "sqlite")
    then ok sqlite
    else err (configuration (codes "unsupported url scheme: " ++ scheme))

abbrev pub scheme_of : List ℕ → List ℕ
scheme_of url = map ascii_lower (before_colon url)

-- `Config::backend`.
unfoldable pub config_backend : {D M : Type 0} → Config → Result Backend D M
unfolding backend_of
config_backend self =
    if is_empty (trim self.url)
    then err (configuration (codes "url is required"))
    else backend_of (scheme_of (trim self.url))

-- What `build_options` sets of `ConnectOptions`.
pub record ConnectOptions : Type 0 where
  pub url : List ℕ
  pub max_connections : ℕ
  pub min_connections : ℕ
  pub acquire_timeout : ℕ
  pub sqlx_logging : Bool
  pub slow_statements_threshold : ℕ
  pub idle_timeout : Option ℕ
  pub max_lifetime : Option ℕ

abbrev pub build_options : Config → ConnectOptions
build_options config = record {
  url = config.url;
  max_connections = config.max_connections;
  min_connections = config.min_connections;
  acquire_timeout = config.acquire_timeout;
  sqlx_logging = config.sqlx_logging;
  slow_statements_threshold = config.sqlx_slow_query_threshold;
  idle_timeout = config.idle_timeout;
  max_lifetime = config.max_lifetime;
}
