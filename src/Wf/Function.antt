-- ===== src/Wf/Function.antt =====
-- crates/altair-wf/src/function: payload.rs and registry.rs. A handler is a step, and its error is the
-- printed text; `debug` is the `Debug` form of a text.
pub mod Names
pub mod Payload
pub mod Activity
use Prim.Native.Char.{Char, code}
use altair_rs.Prelude.{
  ℕ, ◌+◌, Bool, true, false, ◌&&◌, ◌||◌, Option, none, some, List, [], ◌∷◌, length, leb, ltb, ◌==◌,
  if◌then◌else◌,
}
use altair_rs.Prelude.Text.{String, ◌+++◌}
use altair_rs.Prelude.StringMap.{insert, lookup}
use altair_rs.Prelude.Async as Async
use altair_rs.Wf.Error.{Error, invalid_input, pattern_stopped, Result, ok, err}
use altair_rs.Wf.Futures.{Fut, and_then}
use altair_rs.Wf.Params.{StringMap}
use altair_rs.Wf.Datasync.Job.{is_blank}

pub record FunctionInput : Type 0 where
  pub args : StringMap
  pub data_bytes : List ℕ
  pub env : StringMap
  pub work_dir : String

pub record FunctionOutput : Type 0 where
  pub result : StringMap
  pub data_bytes : List ℕ

pub record FunctionExecutionInput : Type 0 where
  pub name : String
  pub args : StringMap
  pub data_bytes : List ℕ
  pub env : StringMap
  pub work_dir : String
  pub timeout : ℕ
  pub labels : StringMap

-- `into_function_input`, and `to_function_input`.
abbrev pub into_function_input : FunctionExecutionInput → FunctionInput
into_function_input self = record {
  args = self.args;
  data_bytes = self.data_bytes;
  env = self.env;
  work_dir = self.work_dir;
}

abbrev pub is_ascii_alphabetic : Char → Bool
is_ascii_alphabetic c =
    (leb 65 (code c) && leb (code c) 90) || (leb 97 (code c) && leb (code c) 122)

-- A letter, a digit, `_` or `-`.
abbrev pub is_name_char : Char → Bool
is_name_char c =
    is_ascii_alphabetic c || (leb 48 (code c) && leb (code c) 57) || code c == 95 || code c == 45

-- The bytes of a character in UTF-8, and `str::len`.
abbrev pub char_len : Char → ℕ
char_len c =
    if ltb (code c) 128
    then 1
    else if ltb (code c) 2048
    then 2
    else if ltb (code c) 65536
    then 3
    else 4

unfoldable pub str_len : String → ℕ
str_len String.[] = 0
str_len (String.◌∷◌ c s) = char_len c + str_len s

-- The loop over the characters after the first.
unfoldable pub all_name_chars : String → Bool
all_name_chars String.[] = true
all_name_chars (String.◌∷◌ c s) = is_name_char c && all_name_chars s

-- The first character, `_` where there is none, is a letter.
abbrev pub starts_with_letter : String → Bool
starts_with_letter String.[] = false
starts_with_letter (String.◌∷◌ c s) = is_ascii_alphabetic c

abbrev pub after_first : String → String
after_first String.[] = String.[]
after_first (String.◌∷◌ c s) = s

-- `FunctionExecutionInput::validate`.
unfoldable pub validate_function : (String → String) → FunctionExecutionInput → Result (Unit {0})
unfolding is_blank all_name_chars str_len
validate_function debug self =
    if is_blank self.name
    then err (invalid_input "function name is required")
    else if starts_with_letter self.name
    then if all_name_chars (after_first self.name)
      then if ltb 255 (str_len self.name)
        then err (invalid_input "function name must be <= 255 characters")
        else ok tt
      else err (
          invalid_input (
            "function name "
            +++ debug self.name
            +++ " may only contain ASCII letters, digits, '_' or '-'"))
    else err (
        invalid_input ("function name " +++ debug self.name +++ " must start with an ASCII letter"))

abbrev pub StoredHandler : Type 0 → Type 0
StoredHandler W = FunctionInput → Fut W (Async.Result FunctionOutput String)

-- A registry of handlers of type `H`.
abbrev pub Registry : Type 0 → Type 0
Registry H = List (String × H)

abbrev is_some : {A : Type 0} → Option A → Bool
is_some none = false
is_some (some a) = true

abbrev pub found_or : {A : Type 0} → String → Option A → Result A
found_or message none = err (invalid_input message)
found_or message (some a) = ok a

-- A handler's error as the error of its name.
abbrev handled : String → Async.Result FunctionOutput String → Result FunctionOutput
handled name (Async.ok output) = ok output
handled name (Async.err e) = err (pattern_stopped name e)

module _ {H : Type 0} where
  -- `Registry::has`.
  unfoldable pub has : Registry H → String → Bool
  has self name = is_some (lookup name self)

  -- `Registry::register`, with the registry as it is then.
  unfoldable pub register : Registry H → String → H → Result (Unit {0}) × Registry H
  unfolding has
  register self name handler =
      if has self name
      then (err (invalid_input ("handler already registered: " +++ name)), self)
      else (ok tt, insert name handler self)

  unfoldable pub get : (String → String) → Registry H → String → Result H
  get debug self name =
      found_or ("function " +++ debug name +++ " not found in registry") (lookup name self)

unfoldable pub dispatch :
    {W : Type 0}
    → (String → String)
    → Registry (StoredHandler W)
    → String
    → FunctionInput
    → Fut W (Result FunctionOutput)
unfolding get
dispatch debug self name input =
    and_then (get debug self name)
      λ handler w. let (outcome, w') = handler input w in (handled name outcome, w')
