-- ===== src/Wf/Function/Names.antt =====
-- crates/altair-wf/src/function: the names that are accepted, and what a registration changes.
use altair_rs.Prelude.{
  ℕ, ◌≤◌, ◌≡◌, ◌↔◌, ◌⊎◌, refl, inl, inr, Bool, true, false, some, ltb, if◌then◌else◌, Bool-cases,
  arith,
}
use altair_rs.Prelude.Text.{String, ◌+++◌, str_eq}
use altair_rs.Prelude.StringMap.{lookup, lookup-insert}
use altair_rs.Wf.Error.{invalid_input, Result, ok, err}
use altair_rs.Wf.Datasync.Job.{is_blank}
use altair_rs.Wf.Function.{
  FunctionExecutionInput, str_len, all_name_chars, starts_with_letter, after_first,
  validate_function, Registry, found_or, has, register, get,
}

letter_not_blank : (s : String) → starts_with_letter s ≡ true → is_blank s ≡ false
unfolding is_blank
letter_not_blank String.[] h = cc
letter_not_blank (String.◌∷◌ c s) h = ground (arith, h)

-- The input of a function is accepted exactly when its name starts with an ASCII letter, goes on with
-- ASCII letters, digits, `_` or `-`, and is at most 255 bytes long.
pub validate_function_iff :
    (debug : String → String) (input : FunctionExecutionInput)
    → (validate_function debug input ≡ ok tt) ↔ (
        (starts_with_letter input.name ≡ true)
        × (all_name_chars (after_first input.name) ≡ true)
        × (str_len input.name ≤ 255))
unfolding validate_function
validate_function_iff debug input = (
  λ h.
      accepted (is_blank input.name) (starts_with_letter input.name)
        (all_name_chars (after_first input.name)) (str_len input.name) h,
  λ (letter, chars, small).
      let fits : ltb 255 (str_len input.name) ≡ false = ground (arith, small) in
      rw (letter_not_blank input.name letter, letter, chars, fits),
)
  where
    accepted :
        (blank letter chars : Bool) (n : ℕ)
        → ◌≡◌ {0} {A = Result (Unit {0})}
            (if blank
              then err (invalid_input "function name is required")
              else if letter
              then if chars
                then if ltb 255 n
                  then err (invalid_input "function name must be <= 255 characters")
                  else ok tt
                else err (
                    invalid_input (
                      "function name "
                      +++ debug input.name
                      +++ " may only contain ASCII letters, digits, '_' or '-'"))
              else err (
                  invalid_input
                    ("function name " +++ debug input.name +++ " must start with an ASCII letter")))
            (ok tt)
        → (letter ≡ true) × (chars ≡ true) × (n ≤ 255)
    accepted true letter chars n h = cc
    accepted false false chars n h = cc
    accepted false true false n h = cc
    accepted false true true n h = (
      refl,
      refl,
      elim (Bool-cases (ltb 255 n)) [
        | inl long ↦ absurd (
            let e : ◌≡◌ {A = Result (Unit {0})}
                (err (invalid_input "function name must be <= 255 characters")) (ok tt) =
              rw long at h in
            cc)
        | inr short ↦ ground (arith, short)
      ],
    )

-- A registration that is accepted gives the name its handler and leaves the other names theirs; it
-- is refused, and changes nothing, exactly when the name has a handler.
pub get-register :
    {H : Type 0} (debug : String → String) (self : Registry H) (name other : String) (handler : H)
    → ((has self name ≡ true)
        × (register self name handler
            ≡ (err (invalid_input ("handler already registered: " +++ name)), self)))
      ⊎ ((has self name ≡ false)
          × ((register self name handler).0 ≡ ok tt)
          × (get debug (register self name handler).1 other
              ≡ (if str_eq name other then ok handler else get debug self other)))
unfolding register get has
get-register debug self name other handler = elim (Bool-cases (has self name)) [
  | inl taken ↦ inl (taken, rw taken)
  | inr free ↦ inr (
    free,
    rw free,
    rw (free, lookup-insert name other handler self) (by_name (str_eq name other)),
  )
]
  where
    by_name :
        (b : Bool)
        → found_or
            ("function " +++ debug other +++ " not found in registry")
            (if b then some handler else lookup other self)
          ≡ (if b
              then ok handler
              else found_or
                  ("function " +++ debug other +++ " not found in registry")
                  (lookup other self))
    by_name true = refl
    by_name false = refl
