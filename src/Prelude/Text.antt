-- ===== src/Prelude/Text.antt =====
-- Texts: whole strings that the program compares, joins and prints.
use Prim.Native.Nat.{ℕ, zero, suc, ◌/◌, ◌%◌}
use Prim.Native.Char.{Char, code}
use mathlib.Core.Path.{◌≡◌, refl, ap₂}
use mathlib.Core.Logic.{◌⊎◌, inl, inr}
use mathlib.Core.Bool.{Bool, true, false, ◌&&◌, ◌||◌}
use mathlib.Core.List.{List, [], ◌∷◌}
use text.Mathlib.TextEquality.{Char-path}
use native.Mathlib.Omega.{arith}
use altair_rs.Prelude.Tests.{ltb, leb, ◌==◌, if◌then◌else◌}
pub use Prim.Native.String.{String, ◌++◌ as ◌+++◌}
pub use text.Mathlib.Text.{◌==◌ as str_eq}
pub use text.Mathlib.TextEquality.{eq_iff}
pub use text.Mathlib.TextPositions.{eq_refl}

abbrev pub is_empty_text : String → Bool
is_empty_text String.[] = true
is_empty_text (String.◌∷◌ c s) = false

-- The code points of a text.
abbrev pub codes : String → List ℕ
codes String.[] = []
codes (String.◌∷◌ c s) = code c ∷ codes s

-- `char::is_whitespace`, by the number of the character.
abbrev pub is_whitespace_code : ℕ → Bool
is_whitespace_code n =
    (leb 9 n && leb n 13)
    || n == 32
    || n == 133
    || n == 160
    || n == 5760
    || (leb 8192 n && leb n 8202)
    || n == 8232
    || n == 8233
    || n == 8239
    || n == 8287
    || n == 12288

abbrev digit : ℕ → String
digit d =
    if d == 0
    then "0"
    else if d == 1
    then "1"
    else if d == 2
    then "2"
    else if d == 3
    then "3"
    else if d == 4
    then "4"
    else if d == 5
    then "5"
    else if d == 6
    then "6"
    else if d == 7
    then "7"
    else if d == 8
    then "8"
    else "9"

decimal : ℕ → ℕ → String → String
decimal zero n rest = rest
decimal (suc fuel) n rest =
    let more = decimal fuel (n / 10) (◌+++◌ (digit (n % 10)) rest) in
    if ltb n 10 then ◌+++◌ (digit n) rest else more

-- Rust's `usize::to_string`. Each round drops a digit, so `n + 1` rounds are enough.
unfoldable pub to_string : ℕ → String
unfolding decimal
to_string n = decimal (suc n) n ""

prints : to_string 1204 ≡ "1204"
unfolding to_string
prints = refl

-- Rust's order on `str`: lexicographic by the characters' numbers.
unfoldable pub text_leb : String → String → Bool
text_leb String.[] t = true
text_leb (String.◌∷◌ c s) String.[] = false
text_leb (String.◌∷◌ c s) (String.◌∷◌ d t) =
    if ltb (code c) (code d) then true else if ltb (code d) (code c) then false else text_leb s t

pub text_leb_total : (s t : String) → (text_leb s t ≡ true) ⊎ (text_leb t s ≡ true)
unfolding text_leb
text_leb_total String.[] t = inl refl
text_leb_total (String.◌∷◌ c s) String.[] = inr refl
text_leb_total (String.◌∷◌ c s) (String.◌∷◌ d t) = ground (arith, text_leb_total s t)

pub text_leb_trans :
    (s t u : String) → text_leb s t ≡ true → text_leb t u ≡ true → text_leb s u ≡ true
unfolding text_leb
text_leb_trans String.[] t u p q = refl
text_leb_trans (String.◌∷◌ c s) String.[] u p q = cc
text_leb_trans (String.◌∷◌ c s) (String.◌∷◌ d t) String.[] p q = cc
text_leb_trans (String.◌∷◌ c s) (String.◌∷◌ d t) (String.◌∷◌ e u) p q =
    ground (arith, text_leb_trans s t u)

text_leb_cons :
    (c d : Char) (s t : String)
    → text_leb (String.◌∷◌ c s) (String.◌∷◌ d t) ≡ true
    → text_leb (String.◌∷◌ d t) (String.◌∷◌ c s) ≡ true
    → (code c ≡ code d) × (text_leb s t ≡ true) × (text_leb t s ≡ true)
unfolding text_leb
text_leb_cons c d s t p q = ground arith

pub text_leb_antisymm : (s t : String) → text_leb s t ≡ true → text_leb t s ≡ true → s ≡ t
text_leb_antisymm String.[] String.[] p q = refl
text_leb_antisymm String.[] (String.◌∷◌ d t) p q = unfold text_leb in cc
text_leb_antisymm (String.◌∷◌ c s) String.[] p q = unfold text_leb in cc
text_leb_antisymm (String.◌∷◌ c s) (String.◌∷◌ d t) p q =
    let (e, l, r) = text_leb_cons c d s t p q in
    ap₂ String.◌∷◌ (Char-path c d e) (text_leb_antisymm s t l r)
