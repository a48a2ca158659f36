-- ===== src/ConfigLoader/Layers.antt =====
-- crates/altair-config/src/loader.rs: which source a value comes from.
use altair_rs.Prelude.{
  ◌≡◌, refl, ap, sym, ◌∙◌, inl, inr, Bool, true, false, not, ◌&&◌, Option, none, some, List, [],
  ◌∷◌, All, Bool-cases,
}
use altair_rs.Prelude.Text.{String, ◌+++◌}
use altair_rs.Prelude.Async.{Result as AsyncResult, ok, err, Result-cases}
use altair_rs.ConfigLoader.{
  Figments, Loader, Error, parse_failed, validation_failed, merge_files, merge_prefix, build_loader,
  extracted,
}

-- A newer value over an older one.
abbrev pub over : {Value : Type 0} → Option Value → Option Value → Option Value
over none old = old
over (some new) old = some new

-- The last value that one of some sources has, or the first one given.
abbrev pub latest : {Value : Type 0} → Option Value → List (Option Value) → Option Value
latest old [] = old
latest old (new ∷ sources) = latest (over new old) sources

-- Documented of figment: a merge joins the data of a source into what is there, a file that is
-- missing has none, and what is extracted depends on the data. `value` is the scalar at the path of a
-- key. Tables are joined, and anything else replaces what was there: a source with a scalar above the
-- key, or with a table at it, `covers` the key, and any other leaves its value or sets a new one.
-- File paths are absolute, since figment looks for a relative one in the parent directories too.
pub record Merging {G T F V : Type 0} (figments : Figments G T F V) (D Value : Type 0)
    : Type 0 where
  pub data_of : G → D
  pub empty_data : D
  pub join : D → D → D
  pub file_data : String → D
  pub env_data : String → D
  pub data_of-empty_figment : data_of figments.empty_figment ≡ empty_data
  pub data_of-merge_file :
      (path : String) (figment : G)
      → data_of (figments.merge_file path figment) ≡ join (data_of figment) (file_data path)
  pub data_of-merge_env :
      (prefix : String) (figment : G)
      → data_of (figments.merge_env prefix figment) ≡ join (data_of figment) (env_data prefix)
  pub file_missing : (path : String) → figments.exists path ≡ false → file_data path ≡ empty_data
  pub join-empty_data : (d : D) → join d empty_data ≡ d
  pub extract_data : D → AsyncResult T F
  pub extract_data-data_of :
      (figment : G) → figments.extract figment ≡ extract_data (data_of figment)
  pub value : D → String → Option Value
  pub covers : D → String → Bool
  pub value-empty_data : (key : String) → value empty_data key ≡ none
  pub value-join :
      (old new : D) (key : String)
      → covers new key ≡ false
      → value (join old new) key ≡ over (value new key) (value old key)

-- The ends of a load: what cannot be extracted or is not valid is an error, and only a valid value
-- is answered.
pub data Loads {G T F V X : Type 0} (figments : Figments G T F V) (read : AsyncResult T F)
    : AsyncResult T (Error X F V) → Type 0 where
  unread : (e : F) → read ≡ err e → Loads figments read (err (parse_failed e))
  refused :
      (value : T) (e : V)
      → read ≡ ok value
      → figments.validate value ≡ err e
      → Loads figments read (err (validation_failed e))
  accepted :
      (value : T)
      → read ≡ ok value
      → figments.validate value ≡ ok tt
      → Loads figments read (ok value)

Loads-extracted :
    {G T F V X : Type 0} (figments : Figments G T F V) (figment : G)
    → Loads {X = X} figments (figments.extract figment) (extracted figments figment)
Loads-extracted figments figment = elim (Result-cases (figments.extract figment)) [
  | inr (e, failed) ↦ rw failed (unread e refl)
  | inl (value, read) ↦ elim (Result-cases (figments.validate value)) [
    | inr (e, invalid) ↦ rw (read, invalid) (refused value e refl invalid)
    | inl (tt, valid) ↦ rw (read, valid) (accepted value refl valid)
  ]
]

module _ {G T F V D Value : Type 0} (figments : Figments G T F V)
    (merging : Merging figments D Value) where
  open merging use {data_of, join, file_data, env_data, empty_data, value, covers}

  -- The data of the files joined in their order, and that of the environment last.
  abbrev pub joined : D → List (String × Bool) → D
  joined d [] = d
  joined d ((path, _) ∷ files) = joined (join d (file_data path)) files

  abbrev pub with_env : Option String → D → D
  with_env none d = d
  with_env (some prefix) d = join d (env_data (prefix +++ "_"))

  abbrev pub layered : Loader → D
  layered self = with_env self.env_prefix (joined empty_data self.files)

  -- The sources of a key, in the order in which they were added.
  abbrev pub file_sources : List (String × Bool) → String → List (Option Value)
  file_sources [] key = []
  file_sources ((path, _) ∷ files) key = value (file_data path) key ∷ file_sources files key

  abbrev pub env_source : Option String → String → Option Value
  env_source none key = none
  env_source (some prefix) key = value (env_data (prefix +++ "_")) key

  abbrev pub IsClearEnv : String → Option String → Type 0
  IsClearEnv key none = Unit {0}
  IsClearEnv key (some prefix) = covers (env_data (prefix +++ "_")) key ≡ false

  -- No source covers the key.
  abbrev pub IsClear : Loader → String → Type 0
  IsClear self key =
      All (λ file. covers (file_data file.0) key ≡ false) self.files
      × IsClearEnv key self.env_prefix

  value-joined :
      (files : List (String × Bool)) (d : D) (key : String)
      → All (λ file. covers (file_data file.0) key ≡ false) files
      → value (joined d files) key ≡ latest (value d key) (file_sources files key)
  value-joined [] d key clear = refl
  value-joined ((path, _) ∷ files) d key (c, clear) =
      value-joined files (join d (file_data path)) key clear
      ∙ ap (λ old. latest old (file_sources files key))
          (merging.value-join d (file_data path) key c)

  -- A file is merged unless it is optional and missing; then it has no data.
  data_of-merge_files :
      (files : List (String × Bool)) (figment : G)
      → data_of (merge_files figments files figment) ≡ joined (data_of figment) files
  unfolding merge_files
  data_of-merge_files [] figment = refl
  data_of-merge_files ((path, optional) ∷ files) figment =
      elim (Bool-cases (optional && not (figments.exists path))) [
        | inr kept ↦ rw kept (
            data_of-merge_files files (figments.merge_file path figment)
            ∙ ap (λ d. joined d files) (merging.data_of-merge_file path figment))
        | inl skipped ↦
            let missing = missing_of optional (figments.exists path) refl skipped in
            let same : data_of figment ≡ join (data_of figment) (file_data path) =
              sym
                (ap (join (data_of figment)) missing ∙ merging.join-empty_data (data_of figment)) in
            rw skipped (data_of-merge_files files figment ∙ ap (λ d. joined d files) same)
      ]
    where
      missing_of :
          (optional there : Bool)
          → figments.exists path ≡ there
          → (optional && not there) ≡ true
          → file_data path ≡ empty_data
      missing_of true false e h = merging.file_missing path e
      missing_of true true e h = cc
      missing_of false there e h = cc

  data_of-merge_prefix :
      (prefix : Option String) (figment : G)
      → data_of (merge_prefix figments prefix figment) ≡ with_env prefix (data_of figment)
  data_of-merge_prefix none figment = refl
  data_of-merge_prefix (some prefix) figment = merging.data_of-merge_env (prefix +++ "_") figment

  read_layered :
      (self : Loader)
      → figments.extract (
          merge_prefix figments self.env_prefix
            (merge_files figments self.files figments.empty_figment))
        ≡ merging.extract_data (layered self)
  read_layered self =
      let files = merge_files figments self.files figments.empty_figment in
      merging.extract_data-data_of (merge_prefix figments self.env_prefix files)
      ∙ ap merging.extract_data (
          data_of-merge_prefix self.env_prefix files
          ∙ ap (with_env self.env_prefix) (
              data_of-merge_files self.files figments.empty_figment
              ∙ ap (λ d. joined d self.files) merging.data_of-empty_figment))

  value-layered :
      (self : Loader) (key : String)
      → IsClear self key
      → value (layered self) key
        ≡ over (env_source self.env_prefix key) (latest none (file_sources self.files key))
  value-layered self key (clear, env) = from_env self.env_prefix env
    where
      files_value :
          value (joined empty_data self.files) key ≡ latest none (file_sources self.files key)
      files_value =
          value-joined self.files empty_data key clear
          ∙ ap (λ old. latest old (file_sources self.files key)) (merging.value-empty_data key)

      from_env :
          (prefix : Option String)
          → IsClearEnv key prefix
          → value (with_env prefix (joined empty_data self.files)) key
            ≡ over (env_source prefix key) (latest none (file_sources self.files key))
      from_env none h = files_value
      from_env (some prefix) h =
          merging.value-join (joined empty_data self.files) (env_data (prefix +++ "_")) key h
          ∙ ap (over (value (env_data (prefix +++ "_")) key)) files_value

  -- `build` extracts from the data of the files, joined in their order, and that of the environment
  -- last, and answers only a valid value; what cannot be extracted or is not valid is an error. It
  -- does not look at whether a file is required: one that is missing has no data, without an error.
  -- In that data, a key that no source covers has the value of the environment, or else of the last
  -- file that has one.
  pub build_loader_lem :
      {X : Type 0} (self : Loader) (key : String)
      → IsClear self key
      → (value (layered self) key
          ≡ over (env_source self.env_prefix key) (latest none (file_sources self.files key)))
        × Loads {X = X} figments (merging.extract_data (layered self)) (build_loader figments self)
  unfolding build_loader
  build_loader_lem self key clear = (
    value-layered self key clear,
    rw (← read_layered self) (
        Loads-extracted figments (
          merge_prefix figments self.env_prefix
            (merge_files figments self.files figments.empty_figment))),
  )
