-- ===== src/Retry/Config.antt =====
-- crates/altair-retry/src/config.rs. A `Duration` is its number of nanoseconds; `K` is the type of
-- cancellation tokens and `F` that of `f64`.
use altair_rs.Prelude.{ℕ, ◌*◌, ◌&&◌, Bool, true, Option, none, some, leb, if◌then◌else◌}
use altair_rs.Prelude.Text.{String}

-- What the crate asks of floating-point numbers.
pub record Floats (F S : Type 0) : Type 0 where
  pub is_finite : F → Bool
  pub is_positive : F → Bool
  pub one_and_half : F
  pub as_f32 : F → S

pub record Config (K F : Type 0) : Type 0 where
  pub name : String
  pub max_retries : ℕ
  pub initial_interval : ℕ
  pub max_interval : ℕ
  pub multiplier : F
  pub jitter : Bool
  pub cancellation_token : Option K

abbrev pub from_millis : ℕ → ℕ
from_millis n = n * 1000000

abbrev pub from_secs : ℕ → ℕ
from_secs n = n * 1000000000

-- `Config::default`; `Config::builder` starts from it.
abbrev pub default_config : {K F S : Type 0} → Floats F S → Config K F
default_config floats = record {
  name = "unnamed";
  max_retries = 5;
  initial_interval = from_millis 100;
  max_interval = from_secs 30;
  multiplier = floats.one_and_half;
  jitter = true;
  cancellation_token = none;
}

module _ {K F : Type 0} where
  -- `Config::with_name`, and `ConfigBuilder::name`.
  abbrev pub with_name : String → Config K F → Config K F
  with_name name config = record config { name = name }

  abbrev pub with_max_retries : ℕ → Config K F → Config K F
  with_max_retries n config = record config { max_retries = n }

  abbrev pub with_initial_interval : ℕ → Config K F → Config K F
  with_initial_interval d config = record config { initial_interval = d }

  abbrev pub with_max_interval : ℕ → Config K F → Config K F
  with_max_interval d config = record config { max_interval = d }

  abbrev pub with_multiplier : F → Config K F → Config K F
  with_multiplier m config = record config { multiplier = m }

  abbrev pub with_jitter : Bool → Config K F → Config K F
  with_jitter on config = record config { jitter = on }

  abbrev pub with_cancellation_token : K → Config K F → Config K F
  with_cancellation_token token config = record config { cancellation_token = some token }

  -- `ConfigBuilder::build`, where none is a panic.
  unfoldable pub build : {S : Type 0} → Floats F S → Config K F → Option (Config K F)
  build floats inner =
      if floats.is_finite inner.multiplier && floats.is_positive inner.multiplier
      then (if leb inner.initial_interval inner.max_interval then some inner else none)
      else none
