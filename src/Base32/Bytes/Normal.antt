-- ===== src/Base32/Bytes/Normal.antt =====
-- crates/altair-base32/src/bytes.rs: which texts `normalize` accepts, and where it stops.
use mathlib.Core.Path.{subst}
use altair_rs.Prelude.{
  ℕ, ◌+◌, ◌≡◌, refl, ap, ◌∙◌, ◌≢◌, ◌⊎◌, inl, inr, Bool, true, false, ◌&&◌, ◌||◌, Option, none, some,
  List, [], ◌∷◌, ◌++◌, arith, ◌==◌, if◌then◌else◌, Option-cases, Bool-cases, All, All-append,
}
use altair_rs.Base32.Error.{invalid_char, Result, ok, err}
use altair_rs.Base32.Bytes.{
  between, len_utf8, pushed, normalize_from, normalize, is_canonical, IsCanonical,
  is_crockford_letter, to_ascii_uppercase,
}

-- A hyphen, or an ASCII letter or digit other than U.
abbrev pub is_accepted : ℕ → Bool
is_accepted ch =
    ch == b'-'
    || between b'0' b'9' ch
    || ((between b'a' b'z' ch || between b'A' b'Z' ch)
        && (if ch == b'U' then false else if ch == b'u' then false else true))

abbrev pub offset : List ℕ → ℕ
offset [] = 0
offset (ch ∷ text) = len_utf8 ch + offset text

pushed_accepted : (ch : ℕ) → is_accepted ch ≡ true → pushed ch ≢ none
unfolding pushed
pushed_accepted ch h = ground arith

pushed_rejected : (ch : ℕ) → is_accepted ch ≡ false → pushed ch ≡ none
unfolding pushed
pushed_rejected ch h = ground arith

pushed_canonical : (ch : ℕ) → is_canonical ch ≡ true → pushed ch ≡ some (ch ∷ [])
unfolding pushed
pushed_canonical ch h = ground arith

-- What an arm pushes: nothing, or one canonical character.
AllCanonical : Option (List ℕ) → Type 0
AllCanonical none = Unit {0}
AllCanonical (some piece) = IsCanonical piece

canonical_arm : (c : ℕ) → is_canonical c ≡ true → AllCanonical (some (c ∷ []))
unfolding AllCanonical
canonical_arm c h = (h, tt)

arms :
    (b : Bool) (x y : Option (List ℕ))
    → (b ≡ true → AllCanonical x)
    → (b ≡ false → AllCanonical y)
    → AllCanonical (if b then x else y)
arms true x y f g = f refl
arms false x y f g = g refl

AllCanonical-pushed : (ch : ℕ) → AllCanonical (pushed ch)
unfolding pushed AllCanonical
AllCanonical-pushed ch =
    arms (ch == b'-') _ _ (λ _. tt)
      λ _.
        arms (ch == b'0' || ch == b'O' || ch == b'o') _ _ (λ _. (refl, tt))
          λ _.
            arms (ch == b'1' || ch == b'I' || ch == b'i' || ch == b'L' || ch == b'l') _ _
              (λ _. (refl, tt))
              λ _.
                arms (between b'2' b'9' ch) _ _ (λ h. canonical_arm ch (ground arith))
                  λ _.
                    arms (between b'a' b'z' ch && is_crockford_letter (to_ascii_uppercase ch)) _ _
                      (λ h. canonical_arm (to_ascii_uppercase ch) (ground arith))
                      λ _.
                        arms (between b'A' b'Z' ch && is_crockford_letter ch) _ _
                          (λ h. canonical_arm ch (ground arith)) λ _. tt

IsCanonical-pushed : (ch : ℕ) (piece : List ℕ) → pushed ch ≡ some piece → IsCanonical piece
unfolding AllCanonical
IsCanonical-pushed ch piece h = subst AllCanonical h (AllCanonical-pushed ch)

-- A canonical text is its own normal form, wherever it stands.
normalize_from-canonical :
    (position : ℕ) (text : List ℕ) → IsCanonical text → normalize_from position text ≡ ok text
unfolding normalize_from
normalize_from-canonical position [] h = refl
normalize_from-canonical position (ch ∷ text) (h, hs) =
    rw (pushed_canonical ch h, normalize_from-canonical (position + len_utf8 ch) text hs)

-- What the loop answers: a canonical text for an accepted one, or the first character refused.
abbrev Accepts : ℕ → List ℕ → Type 0
Accepts position text =
    All (λ c. is_accepted c ≡ true) text
    × (out : List ℕ) × (normalize_from position text ≡ ok out)
    × IsCanonical out

abbrev Refuses : ℕ → List ℕ → Type 0
Refuses position text =
    (pre : List ℕ) × (ch : ℕ) × (post : List ℕ) × (text ≡ pre ++ (ch ∷ post))
    × All (λ c. is_accepted c ≡ true) pre
    × (is_accepted ch ≡ false)
    × (normalize_from position text ≡ err (invalid_char ch (position + offset pre)))

refused_here :
    (position ch : ℕ) (text : List ℕ) → is_accepted ch ≡ false → Refuses position (ch ∷ text)
unfolding normalize_from
refused_here position ch text rejected = (
  [],
  ch,
  text,
  refl,
  tt,
  rejected,
  rw (pushed_rejected ch rejected) (ap (λ p. err (invalid_char ch p)) (omega arith)),
)

refused_later :
    (position ch : ℕ) (text piece : List ℕ)
    → is_accepted ch ≡ true
    → pushed ch ≡ some piece
    → Refuses (position + len_utf8 ch) text
    → Refuses position (ch ∷ text)
unfolding normalize_from
refused_later position ch text piece accepted e (pre, c, post, split, all, rejected, r) = (
  ch ∷ pre,
  c,
  post,
  ap (λ t. ch ∷ t) split,
  (accepted, all),
  rejected,
  rw (e, r) (ap (λ p. err (invalid_char c p)) (omega arith)),
)

passed_on :
    (position ch : ℕ) (text piece : List ℕ)
    → is_accepted ch ≡ true
    → pushed ch ≡ some piece
    → Accepts (position + len_utf8 ch) text
    → Accepts position (ch ∷ text)
unfolding normalize_from
passed_on position ch text piece accepted e (all, out, r, canonical) = (
  (accepted, all),
  piece ++ out,
  rw (e, r),
  All-append (λ c. is_canonical c ≡ true) piece out (IsCanonical-pushed ch piece e) canonical,
)

normalize_from-cases :
    (position : ℕ) (text : List ℕ) → Accepts position text ⊎ Refuses position text
unfolding normalize_from
normalize_from-cases position [] = inl (tt, [], refl, tt)
normalize_from-cases position (ch ∷ text) = elim (Bool-cases (is_accepted ch)) [
  | inr rejected ↦ inr (refused_here position ch text rejected)
  | inl accepted ↦ elim (Option-cases (pushed ch)) [
    | inl nothing ↦ absurd (pushed_accepted ch accepted nothing)
    | inr (piece, e) ↦ elim (normalize_from-cases (position + len_utf8 ch) text) [
      | inl passed ↦ inl (passed_on position ch text piece accepted e passed)
      | inr stopped ↦ inr (refused_later position ch text piece accepted e stopped)
    ]
  ]
]

-- Accepted: every character is, and the answer is canonical. Refused: the characters before the
-- one refused, which the error names with its byte offset.
abbrev pub Normalizes : List ℕ → Result (List ℕ) → Type 0
Normalizes text answer =
    (All (λ c. is_accepted c ≡ true) text × (out : List ℕ) × (answer ≡ ok out) × IsCanonical out)
    ⊎ ((pre : List ℕ) × (ch : ℕ) × (post : List ℕ) × (text ≡ pre ++ (ch ∷ post))
        × All (λ c. is_accepted c ≡ true) pre
        × (is_accepted ch ≡ false)
        × (answer ≡ err (invalid_char ch (offset pre))))

-- `normalize` accepts a text exactly when each character is a hyphen or an ASCII letter or digit
-- other than U, and then answers a canonical text; otherwise the error names the first character
-- refused and its byte offset in the text.
pub normalize_exact : (text : List ℕ) → Normalizes text (normalize text)
unfolding normalize
normalize_exact text = elim (normalize_from-cases 0 text) [
  | inl passed ↦ inl passed
  | inr (pre, ch, post, split, all, rejected, r) ↦
      inr (pre, ch, post, split, all, rejected, r ∙ ap (λ p. err (invalid_char ch p)) (omega arith))
]

-- A canonical text is its own normal form.
pub normalize-canonical : (text : List ℕ) → IsCanonical text → normalize text ≡ ok text
unfolding normalize
normalize-canonical text h = normalize_from-canonical 0 text h

pub IsCanonical-normalize : (text out : List ℕ) → normalize text ≡ ok out → IsCanonical out
IsCanonical-normalize text out h = elim (normalize_exact text) [
  | inl (_, o, e, canonical) ↦ let q : o ≡ out = cc in subst IsCanonical q canonical
  | inr (_, _, _, _, _, _, e) ↦ cc
]
