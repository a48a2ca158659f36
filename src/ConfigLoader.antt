-- ===== src/ConfigLoader.antt =====
-- crates/altair-config/src: loader.rs, loaders.rs and error.rs. The crates figment and validator and
-- the file system are the parameter `Figments`; a path is its text.
pub mod Layers
mod Tests
use altair_rs.Prelude.{
  Bool, true, false, not, ◌&&◌, Option, none, some, List, [], ◌∷◌, ◌++◌, if◌then◌else◌,
}
use altair_rs.Prelude.Text.{String, ◌+++◌}
use altair_rs.Prelude.Async.{Result as AsyncResult, ok, err, map_error, ◌>>=◌}

-- `X` is the type of I/O errors, `F` that of figment's and `V` that of validator's.
pub data Error (X F V : Type 0) : Type 0 where
  io_failed : X → Error X F V
  parse_failed : F → Error X F V
  validation_failed : V → Error X F V

-- `G` is the type of figments, `T` that of configurations.
pub record Figments (G T F V : Type 0) : Type 0 where
  pub exists : String → Bool
  pub empty_figment : G
  pub merge_file : String → G → G
  pub merge_string : String → G → G
  -- `Env::prefixed(prefix).split('_')`.
  pub merge_env : String → G → G
  pub extract : G → AsyncResult T F
  pub validate : T → AsyncResult (Unit {0}) V

-- `Loader`: each file with whether it is optional.
pub record Loader : Type 0 where
  pub files : List (String × Bool)
  pub env_prefix : Option String

abbrev pub new_loader : Loader
new_loader = record { files = []; env_prefix = none }

abbrev pub toml_file : String → Loader → Loader
toml_file path self = record self { files = self.files ++ ((path, false) ∷ []) }

abbrev pub toml_file_optional : String → Loader → Loader
toml_file_optional path self = record self { files = self.files ++ ((path, true) ∷ []) }

abbrev pub set_env_prefix : String → Loader → Loader
set_env_prefix prefix self = record self { env_prefix = some prefix }

module _ {G T F V : Type 0} (figments : Figments G T F V) where
  -- The loop over the files.
  unfoldable pub merge_files : List (String × Bool) → G → G
  merge_files [] figment = figment
  merge_files ((path, optional) ∷ files) figment =
      merge_files files (
        if optional && not (figments.exists path)
        then figment
        else figments.merge_file path figment)

  abbrev pub merge_prefix : Option String → G → G
  merge_prefix none figment = figment
  merge_prefix (some prefix) figment = figments.merge_env (◌+++◌ prefix "_") figment

module _ {X G T F V : Type 0} (figments : Figments G T F V) where
  -- `extract()?`, `validate()?`.
  abbrev pub extracted : G → AsyncResult T (Error X F V)
  extracted figment = do
    value ← map_error parse_failed (figments.extract figment)
    valid ← map_error validation_failed (figments.validate value)
    ok value

  -- `Loader::build`.
  unfoldable pub build_loader : Loader → AsyncResult T (Error X F V)
  unfolding merge_files
  build_loader self = extracted (
      merge_prefix figments self.env_prefix
        (merge_files figments self.files figments.empty_figment))

  unfoldable pub from_toml_str : String → String → AsyncResult T (Error X F V)
  from_toml_str toml env_prefix = extracted (
      figments.merge_env (◌+++◌ env_prefix "_") (figments.merge_string toml figments.empty_figment))

  abbrev pub from_file : String → String → AsyncResult T (Error X F V)
  from_file path env_prefix = build_loader (set_env_prefix env_prefix (toml_file path new_loader))

  -- `from_reader`, with what the reader gives.
  abbrev pub from_reader : AsyncResult String X → String → AsyncResult T (Error X F V)
  from_reader read env_prefix = do s ← map_error io_failed read; from_toml_str s env_prefix
