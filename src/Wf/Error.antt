-- ===== src/Wf/Error.antt =====
-- crates/altair-wf/src/error.rs. The boxed source of an activity error is its printed text.
use altair_rs.Prelude.{◌≡◌, refl, ◌⊎◌, inl, inr}
use altair_rs.Prelude.Text.{String, ◌+++◌}

pub data Error : Type 0 where
  invalid_input : String → Error
  pattern_stopped : (position reason : String) → Error
  activity : (name source : String) → Error

-- The `Display` that the `#[error]` attributes derive.
unfoldable pub display : Error → String
display (invalid_input message) = "invalid input: " +++ message
display (pattern_stopped position reason) =
    "pattern stopped at step " +++ position +++ ": " +++ reason
display (activity name source) = "activity '" +++ name +++ "' failed: " +++ source

pub data Result {ℓ} (A : Type ℓ) : Type ℓ where
  ok : A → Result A
  err : Error → Result A

abbrev pub map_err {ℓ} : {A : Type ℓ} → (Error → Error) → Result A → Result A
map_err f (ok a) = ok a
map_err f (err e) = err (f e)

-- The operator `?`: go on with the value of a success, or stop with the error.
infixl 5 ◌>>=◌
abbrev pub ◌>>=◌ {ℓ κ} :
    {Before : Type ℓ} {After : Type κ} → Result Before → (Before → Result After) → Result After
err e >>= next = err e
ok value >>= next = next value

-- `?` on a call that answers nothing but success.
infixl 5 ◌>>◌
abbrev pub ◌>>◌ {κ} : {After : Type κ} → Result (Unit {0}) → Result After → Result After
checked >> next = checked >>= λ _. next

pub Result-cases {ℓ} :
    {A : Type ℓ} (r : Result A) → ((a : A) × (r ≡ ok a)) ⊎ ((e : Error) × (r ≡ err e))
Result-cases (ok a) = inl (a, refl)
Result-cases (err e) = inr (e, refl)

-- A chain that succeeds has a first step that succeeds.
pub ok_of_bind {ℓ κ} :
    {Before : Type ℓ} {After : Type κ} (first : Result Before) (next : Before → Result After)
    {b : After}
    → (first >>= next) ≡ ok b
    → (a : Before) × (first ≡ ok a) × (next a ≡ ok b)
ok_of_bind (ok a) next done = (a, refl, done)
ok_of_bind (err e) next done = cc
