-- ===== src/Db/Scheme.antt =====
-- crates/altair-db/src/config.rs: which backend a url stands for.
use altair_rs.Prelude.{
  ℕ, ◌≡◌, refl, ap, ap₂, ◌∙◌, ◌↔◌, ◌≢◌, ◌⊎◌, inl, inr, Bool, true, false, ◌&&◌, List, [], ◌∷◌, ◌++◌,
  map, All, ◌==◌, ==_iff, Bool-cases,
}
use altair_rs.Prelude.Text.{codes, is_whitespace_code}
use altair_rs.Prelude.Async.{ok, err}
use altair_rs.Db.Config.{
  Result, configuration, Backend, postgres, mysql, sqlite, Config, trim_start, trim_end,
  before_blank, trim, before_colon, ascii_lower, text_eq, backend_of, scheme_of, config_backend,
}

both : (a b : Bool) → (a && b) ≡ true → (a ≡ true) × (b ≡ true)
both true b h = (refl, h)
both false b h = cc

pub text_eq_iff : (s t : List ℕ) → (text_eq s t ≡ true) ↔ (s ≡ t)
text_eq_iff [] [] = (λ h. refl, λ h. refl)
text_eq_iff [] (d ∷ ds) = (λ h. cc, λ h. cc)
text_eq_iff (c ∷ cs) [] = (λ h. cc, λ h. cc)
text_eq_iff (c ∷ cs) (d ∷ ds) = (
  λ h.
      let (same, rest) = both (c == d) (text_eq cs ds) h in
      ap₂ ◌∷◌ ((==_iff c d).0 same) ((text_eq_iff cs ds).0 rest),
  λ e.
      let same : c ≡ d = cc in
      let rest : cs ≡ ds = cc in rw ((==_iff c d).1 same, (text_eq_iff cs ds).1 rest) refl,
)

abbrev pub IsBlank : List ℕ → Type 0
IsBlank text = All (λ c. is_whitespace_code c ≡ true) text

-- A text that does not start with white space.
abbrev pub StartsInk : List ℕ → Type 0
StartsInk [] = Unit {0}
StartsInk (c ∷ text) = is_whitespace_code c ≡ false

trim_start_lem :
    (text : List ℕ)
    → ((pre : List ℕ) × (text ≡ pre ++ trim_start text) × IsBlank pre) × StartsInk (trim_start text)
trim_start_lem [] = (([], refl, tt), tt)
trim_start_lem (c ∷ text) = elim (Bool-cases (is_whitespace_code c)) [
  | inl blank ↦
      let ((pre, e, all), ink) = trim_start_lem text in
      rw blank ((c ∷ pre, ap (λ t. c ∷ t) e, (blank, all)), ink)
  | inr ink ↦ rw ink (([], refl, tt), ink)
]

before_blank-cases :
    (c : ℕ) (text : List ℕ)
    → (before_blank c text ≡ c ∷ text)
      ⊎ ((before_blank c text ≡ []) × (text ≡ []) × (is_whitespace_code c ≡ true))
before_blank-cases c (d ∷ text) = inl refl
before_blank-cases c [] = elim (Bool-cases (is_whitespace_code c)) [
  | inl blank ↦ inr (rw blank refl, refl, blank)
  | inr ink ↦ inl (rw ink refl)
]

trim_end_lem : (text : List ℕ) → (post : List ℕ) × (text ≡ trim_end text ++ post) × IsBlank post
trim_end_lem [] = ([], refl, tt)
trim_end_lem (c ∷ text) =
    let (post, e, all) = trim_end_lem text in
    elim (before_blank-cases c (trim_end text)) [
      | inl kept ↦ (post, rw kept (ap (λ t. c ∷ t) e), all)
      | inr (gone, nothing, blank) ↦
          (c ∷ post, rw gone (ap (λ t. c ∷ t) (e ∙ ap (λ t. t ++ post) nothing)), (blank, all))
    ]

-- A text that does not end with white space: its last character is none.
abbrev pub EndsInk : List ℕ → Type 0
EndsInk text = (front : List ℕ) (c : ℕ) → text ≡ front ++ (c ∷ []) → is_whitespace_code c ≡ false

EndsInk-before_blank : (c : ℕ) (text : List ℕ) → EndsInk text → EndsInk (before_blank c text)
EndsInk-before_blank c [] h = elim (Bool-cases (is_whitespace_code c)) [
  | inl blank ↦ rw blank (λ front d e. nothing_ends front d e)
  | inr ink ↦ rw ink (λ front d e. only front d e ink)
]
  where
    nothing_ends : (front : List ℕ) (d : ℕ) → [] ≡ front ++ (d ∷ []) → is_whitespace_code d ≡ false
    nothing_ends [] d e = cc
    nothing_ends (x ∷ front) d e = cc

    only :
        (front : List ℕ) (d : ℕ)
        → c ∷ [] ≡ front ++ (d ∷ [])
        → is_whitespace_code c ≡ false
        → is_whitespace_code d ≡ false
    only [] d e ink = let same : c ≡ d = cc in rw (← same) ink
    only (x ∷ []) d e ink = cc
    only (x ∷ y ∷ front) d e ink = cc
EndsInk-before_blank c (x ∷ text) h = later
  where
    later :
        (front : List ℕ) (d : ℕ) → c ∷ (x ∷ text) ≡ front ++ (d ∷ []) → is_whitespace_code d ≡ false
    later [] d e = cc
    later (y ∷ front) d e = let tail : x ∷ text ≡ front ++ (d ∷ []) = cc in h front d tail

EndsInk-trim_end : (text : List ℕ) → EndsInk (trim_end text)
EndsInk-trim_end [] = ends
  where
    ends : (front : List ℕ) (d : ℕ) → [] ≡ front ++ (d ∷ []) → is_whitespace_code d ≡ false
    ends [] d e = cc
    ends (x ∷ front) d e = cc
EndsInk-trim_end (c ∷ text) = EndsInk-before_blank c (trim_end text) (EndsInk-trim_end text)

StartsInk-trim_end : (text : List ℕ) → StartsInk text → StartsInk (trim_end text)
StartsInk-trim_end [] h = tt
StartsInk-trim_end (c ∷ text) h = elim (before_blank-cases c (trim_end text)) [
  | inl kept ↦ rw kept h
  | inr (_, _, blank) ↦ cc (blank, h)
]

-- White space around a text that neither starts nor ends with any.
abbrev pub Trims : List ℕ → List ℕ → Type 0
Trims url text =
    ((pre : List ℕ) × (post : List ℕ) × (url ≡ pre ++ (text ++ post)) × IsBlank pre × IsBlank post)
    × StartsInk text
    × EndsInk text

Trims-trim : (url : List ℕ) → Trims url (trim url)
Trims-trim url =
    let ((pre, e, blank), ink) = trim_start_lem url in
    let (post, f, end) = trim_end_lem (trim_start url) in
    (
      (pre, post, e ∙ ap (λ t. pre ++ t) f, blank, end),
      StartsInk-trim_end (trim_start url) ink,
      EndsInk-trim_end (trim_start url),
    )

-- The text before the first colon, or the whole text where there is none.
abbrev pub HasScheme : List ℕ → List ℕ → Type 0
HasScheme text scheme =
    All (λ c. (c == b':') ≡ false) scheme
    × ((text ≡ scheme) ⊎ ((rest : List ℕ) × (text ≡ scheme ++ (b':' ∷ rest))))

HasScheme-before_colon : (text : List ℕ) → HasScheme text (before_colon text)
HasScheme-before_colon [] = (tt, inl refl)
HasScheme-before_colon (c ∷ text) = elim (Bool-cases (c == b':')) [
  | inl colon ↦ rw colon (tt, inr (text, ap (λ d. d ∷ text) ((==_iff c b':').0 colon)))
  | inr other ↦ rw other (extend (HasScheme-before_colon text) other)
]
  where
    extend :
        HasScheme text (before_colon text)
        → (c == b':') ≡ false
        → HasScheme (c ∷ text) (c ∷ before_colon text)
    extend (all, inl whole) other = ((other, all), inl (ap (λ t. c ∷ t) whole))
    extend (all, inr (rest, e)) other = ((other, all), inr (rest, ap (λ t. c ∷ t) e))

-- The schemes of each backend.
abbrev pub Names : List ℕ → Backend → Type 0
Names scheme postgres = (scheme ≡ codes "postgres") ⊎ (scheme ≡ codes "postgresql")
Names scheme mysql = scheme ≡ codes "mysql"
Names scheme sqlite = scheme ≡ codes "sqlite"

-- A scheme gives its backend, or it is none of them and is named in the error.
abbrev pub Selects : {D M : Type 0} → List ℕ → Result Backend D M → Type 0
Selects scheme answer =
    ((b : Backend) × Names scheme b × (answer ≡ ok b))
    ⊎ (((b : Backend) → Names scheme b → ⊥)
        × (answer ≡ err (configuration (codes "unsupported url scheme: " ++ scheme))))

text_eq-cases :
    (s t : List ℕ) → ((text_eq s t ≡ true) × (s ≡ t)) ⊎ ((text_eq s t ≡ false) × (s ≢ t))
text_eq-cases s t = elim (Bool-cases (text_eq s t)) [
  | inl same ↦ inl (same, (text_eq_iff s t).0 same)
  | inr other ↦ inr (other, λ e. let same = (text_eq_iff s t).1 e in cc (same, other))
]

none_named :
    (scheme : List ℕ) (b : Backend)
    → scheme ≢ codes "postgres"
    → scheme ≢ codes "postgresql"
    → scheme ≢ codes "mysql"
    → scheme ≢ codes "sqlite"
    → Names scheme b
    → ⊥
none_named scheme postgres p q r t (inl h) = p h
none_named scheme postgres p q r t (inr h) = q h
none_named scheme mysql p q r t h = r h
none_named scheme sqlite p q r t h = t h

Selects-backend_of :
    {D M : Type 0} (scheme : List ℕ) → Selects {D = D} {M = M} scheme (backend_of scheme)
unfolding backend_of
Selects-backend_of scheme = elim (text_eq-cases scheme (codes "postgres")) [
  | inl (a, e) ↦ inl (postgres, inl e, rw a refl)
  | inr (a, na) ↦ elim (text_eq-cases scheme (codes "postgresql")) [
    | inl (b, e) ↦ inl (postgres, inr e, rw (a, b) refl)
    | inr (b, nb) ↦ elim (text_eq-cases scheme (codes "mysql")) [
      | inl (c, e) ↦ inl (mysql, e, rw (a, b, c) refl)
      | inr (c, nc) ↦ elim (text_eq-cases scheme (codes "sqlite")) [
        | inl (d, e) ↦ inl (sqlite, e, rw (a, b, c, d) refl)
        | inr (d, nd) ↦
            inr (λ backend h. none_named scheme backend na nb nc nd h, rw (a, b, c, d) refl)
      ]
    ]
  ]
]

-- The url is trimmed; an empty one is refused, and otherwise the text before the first colon, in
-- lower case, selects the backend.
abbrev pub Reads : {D M : Type 0} → List ℕ → List ℕ → Result Backend D M → Type 0
Reads url text answer =
    Trims url text
    × (((text ≡ []) × (answer ≡ err (configuration (codes "url is required"))))
        ⊎ ((scheme : List ℕ) × HasScheme text scheme × Selects (map ascii_lower scheme) answer))

-- `backend` looks at the url without all the white space around it: an empty one is refused, and
-- otherwise the part before the first colon, or all of it, is compared in lower case with the
-- names of the backends; the error names a scheme that is none of them.
pub config_backend_lem :
    {D M : Type 0} (self : Config)
    → (text : List ℕ) × Reads {D = D} {M = M} self.url text (config_backend self)
unfolding config_backend
config_backend_lem {D = D} {M = M} self =
    (trim self.url, (Trims-trim self.url, by_text (trim self.url) refl))
  where
    by_text :
        (text : List ℕ)
        → trim self.url ≡ text
        → ((text ≡ [])
            × (config_backend {D = D} {M = M} self ≡ err (configuration (codes "url is required"))))
          ⊎ ((scheme : List ℕ) × HasScheme text scheme
              × Selects {D = D} {M = M} (map ascii_lower scheme) (config_backend self))
    by_text [] e = inl (refl, rw e refl)
    by_text (c ∷ text) e = inr (
      before_colon (c ∷ text),
      HasScheme-before_colon (c ∷ text),
      rw e (Selects-backend_of (scheme_of (c ∷ text))),
    )
