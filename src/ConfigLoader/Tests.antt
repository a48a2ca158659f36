-- ===== src/ConfigLoader/Tests.antt =====
-- Runs of the functions of crates/altair-config/src, and its theorem at a concrete input.
use mathlib.Core.Path.{fun_ext}
use altair_rs.Prelude.{◌≡◌, refl, Bool, false, Option, none, some, [], ◌∷◌, if◌then◌else◌}
use altair_rs.Prelude.Text.{String, ◌+++◌, str_eq}
use altair_rs.Prelude.Async.{Result as AsyncResult, ok, err}
use altair_rs.ConfigLoader.{Figments, Loader, new_loader, toml_file, set_env_prefix, build_loader}
use altair_rs.ConfigLoader.Layers.{Merging, Loads, over, latest, layered, build_loader_lem}

-- A figment is a function from keys. There is one file, and one variable of the environment.
abbrev Values : Type 0
Values = String → Option String

abbrev exists : String → Bool
exists path = str_eq path "/base.toml"

abbrev in_file : String → String → Option String
in_file path key =
    if exists path
    then (if str_eq key "port" then some "80" else if str_eq key "host" then some "db" else none)
    else none

abbrev in_env : String → String → Option String
in_env prefix key = if str_eq (◌+++◌ prefix key) "APP_port" then some "8080" else none

abbrev found : Option String → AsyncResult String String
found none = err "missing field"
found (some port) = ok port

abbrev figments : Figments Values String String String
figments = record {
  exists = exists;
  empty_figment = λ key. none;
  merge_file = λ path figment key. over (in_file path key) (figment key);
  merge_string = λ toml figment. figment;
  merge_env = λ prefix figment key. over (in_env prefix key) (figment key);
  extract = λ figment. found (figment "port");
  validate = λ value. ok tt;
}

missing : (path : String) → exists path ≡ false → in_file path ≡ (λ key. none)
missing path h = fun_ext λ key. rw h refl

-- The keys are flat: no source covers one.
abbrev merging : Merging figments Values String
merging = record {
  data_of = λ figment. figment;
  empty_data = λ key. none;
  join = λ old new key. over (new key) (old key);
  file_data = in_file;
  env_data = in_env;
  data_of-empty_figment = refl;
  data_of-merge_file = λ path figment. refl;
  data_of-merge_env = λ prefix figment. refl;
  file_missing = missing;
  join-empty_data = λ d. refl;
  extract_data = λ d. found (d "port");
  extract_data-data_of = λ figment. refl;
  value = λ d key. d key;
  covers = λ d key. false;
  value-empty_data = λ key. refl;
  value-join = λ old new key clear. refl;
}

-- The second file is required, and it is missing.
abbrev two_files : Loader
two_files = set_env_prefix "APP" (toml_file "/local.toml" (toml_file "/base.toml" new_loader))

loads_without : build_loader {X = String} figments two_files ≡ ok "8080"
unfolding build_loader
loads_without = refl

build_loader_lem_example :
    (layered figments merging two_files "port"
      ≡ over
          (in_env "APP_" "port")
          (latest none (in_file "/base.toml" "port" ∷ in_file "/local.toml" "port" ∷ [])))
    × Loads {X = String} figments
        (found (layered figments merging two_files "port"))
        (build_loader figments two_files)
build_loader_lem_example =
    build_loader_lem figments merging two_files "port" ((refl, (refl, tt)), refl)
