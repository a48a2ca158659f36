-- ===== src/Prelude/Async.antt =====
-- `std::result::Result`, and futures as steps on the state `W` of everything outside of the crate.
use mathlib.Core.Path.{◌≡◌, refl, ap}
use mathlib.Core.Logic.{◌⊎◌, inl, inr}

abbrev pub Fut : Type 0 → Type 0 → Type 0
Fut W A = W → A × W

pub data Result (T E : Type 0) : Type 0 where
  ok : T → Result T E
  err : E → Result T E

pub Result-cases :
    {T E : Type 0} (r : Result T E) → ((v : T) × (r ≡ ok v)) ⊎ ((e : E) × (r ≡ err e))
Result-cases (ok v) = inl (v, refl)
Result-cases (err e) = inr (e, refl)

-- `?` in a chain of steps: an error ends it where it stands.
abbrev pub and_then :
    {W A B E : Type 0} → Result A E × W → (A → Fut W (Result B E)) → Result B E × W
and_then (ok a, w) next = next a w
and_then (err e, w) next = (err e, w)

-- `Result::map_err`.
abbrev pub map_error : {T E F : Type 0} → (E → F) → Result T E → Result T F
map_error f (ok v) = ok v
map_error f (err e) = err (f e)

-- What holds of a chain of steps, by the outcome of the first.
pub and_then_elim :
    {W A B E : Type 0} (Goal : Result B E × W → Type 0) (x : Result A E × W)
    (next : A → Fut W (Result B E))
    → ((a : A) → x.0 ≡ ok a → Goal (next a x.1))
    → ((e : E) → x.0 ≡ err e → Goal (err e, x.1))
    → Goal (and_then x next)
and_then_elim Goal (ok a, w) next on_ok on_err = on_ok a refl
and_then_elim Goal (err e, w) next on_ok on_err = on_err e refl

pub ok_of_map_error :
    {T E F : Type 0} (f : E → F) (r : Result T E) (v : T) → map_error f r ≡ ok v → r ≡ ok v
ok_of_map_error f (ok a) v h = let same : a ≡ v = cc in ap ok same
ok_of_map_error f (err e) v h = cc

-- `?` in code that takes no steps.
infixl 5 ◌>>=◌
abbrev pub ◌>>=◌ : {A B E : Type 0} → Result A E → (A → Result B E) → Result B E
ok a >>= next = next a
err e >>= next = err e
