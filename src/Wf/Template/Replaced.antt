-- ===== src/Wf/Template/Replaced.antt =====
-- crates/altair-wf/src/helpers.rs: what a replacement does to a text.
use Prim.Native.Nat.{zero, suc}
use altair_rs.Prelude.{
  ℕ, ◌-◌, ◌<◌, ◌≡◌, refl, sym, ap, ap₂, ◌∙◌, inl, inr, true, false, List, [], ◌∷◌, ◌++◌, All,
  length, length-append, arith, ◌==◌, ==_iff, Bool-cases,
}
use altair_rs.Prelude.Text.{codes, to_string}
use altair_rs.Wf.Template.{
  starts_with, replace_from, replace, placeholder, substitute_params, substitute_template,
}

-- The matches from the left that do not overlap, each replaced.
pub data Replaced (pattern to : List ℕ) : List ℕ → List ℕ → Type 0 where
  end : Replaced pattern to [] []
  hit :
      (rest out : List ℕ)
      → Replaced pattern to rest out
      → Replaced pattern to (pattern ++ rest) (to ++ out)
  miss :
      (c : ℕ) (text out : List ℕ)
      → starts_with pattern (c ∷ text) ≡ false
      → Replaced pattern to text out
      → Replaced pattern to (c ∷ text) (c ∷ out)

starts_with_lem :
    (pattern text : List ℕ)
    → starts_with pattern text ≡ true
    → (rest : List ℕ) × (text ≡ pattern ++ rest)
starts_with_lem [] text h = (text, refl)
starts_with_lem (p ∷ pattern) [] h = cc
starts_with_lem (p ∷ pattern) (c ∷ text) h = elim (Bool-cases (p == c)) [
  | inr other ↦ absurd (cc (h, other))
  | inl same ↦
      let (rest, e) = starts_with_lem pattern text (cc (h, same)) in
      (rest, ap₂ ◌∷◌ (sym ((==_iff p c).0 same)) e)
]

-- The characters of a match are passed over.
replace_from-skip :
    (pattern to skipped rest : List ℕ)
    → replace_from pattern to (length skipped) (skipped ++ rest) ≡ replace pattern to rest
unfolding replace_from
replace_from-skip pattern to [] rest = refl
replace_from-skip pattern to (c ∷ skipped) rest = replace_from-skip pattern to skipped rest

replace-found :
    (p : ℕ) (pattern to rest : List ℕ) (c : ℕ) (text : List ℕ)
    → starts_with (p ∷ pattern) (c ∷ text) ≡ true
    → text ≡ pattern ++ rest
    → replace (p ∷ pattern) to (c ∷ text) ≡ to ++ replace (p ∷ pattern) to rest
unfolding replace_from
replace-found p pattern to rest c text found e =
    let skipped : suc (length pattern) - 1 ≡ length pattern = omega arith in
    rw (found, skipped, e) (ap (λ o. to ++ o) (replace_from-skip (p ∷ pattern) to pattern rest))

replace-missed :
    (pattern to : List ℕ) (c : ℕ) (text : List ℕ)
    → starts_with pattern (c ∷ text) ≡ false
    → replace pattern to (c ∷ text) ≡ c ∷ replace pattern to text
unfolding replace_from
replace-missed pattern to c text missed = rw missed refl

Replaced-replace_from :
    (n p : ℕ) (pattern to text : List ℕ)
    → length text < n
    → Replaced (p ∷ pattern) to text (replace (p ∷ pattern) to text)
unfolding replace_from
Replaced-replace_from zero p pattern to text short = absurd (omega (arith, short))
Replaced-replace_from (suc n) p pattern to [] short = end
Replaced-replace_from (suc n) p pattern to (c ∷ text) short =
    elim (Bool-cases (starts_with (p ∷ pattern) (c ∷ text))) [
      | inr missed ↦
          rw (replace-missed (p ∷ pattern) to c text missed) (
            miss c text _ missed (Replaced-replace_from n p pattern to text (omega (arith, short))))
      | inl found ↦
          let (rest, e) = starts_with_lem (p ∷ pattern) (c ∷ text) found in
          let tail : text ≡ pattern ++ rest = cc in
          let sizes = ap length tail ∙ length-append pattern rest in
          let smaller : length rest < n = omega (arith, sizes, short) in
          rw (replace-found p pattern to rest c text found tail, e)
            (hit rest _ (Replaced-replace_from n p pattern to rest smaller))
    ]

-- `replace` replaces the matches of its pattern from the left, without overlap.
pub Replaced-replace :
    (p : ℕ) (pattern to text : List ℕ)
    → Replaced (p ∷ pattern) to text (replace (p ∷ pattern) to text)
Replaced-replace p pattern to text =
    Replaced-replace_from (suc (length text)) p pattern to text (omega arith)

abbrev pub Occurs : List ℕ → List ℕ → Type 0
Occurs pattern text = (before : List ℕ) × (after : List ℕ) × (text ≡ before ++ (pattern ++ after))

unreplaced :
    (pattern to text out : List ℕ)
    → Replaced pattern to text out
    → ¬ Occurs pattern text
    → out ≡ text
unreplaced pattern to _ _ end lacks = refl
unreplaced pattern to _ _ (hit rest out r) lacks = absurd (lacks ([], rest, refl))
unreplaced pattern to _ _ (miss c text out missed r) lacks =
    ap (λ t. c ∷ t)
      (unreplaced pattern to text out r
        λ (before, after, e). lacks (c ∷ before, after, ap (λ t. c ∷ t) e))

replace_absent :
    (name to text : List ℕ)
    → ¬ Occurs (placeholder name) text
    → replace (placeholder name) to text ≡ text
replace_absent name to text lacks = unreplaced _ to text _ (Replaced-replace _ _ to text) lacks

-- A parameter has no placeholder in a text, neither with the dot nor without it.
abbrev pub IsAbsent : List ℕ → List ℕ × List ℕ → Type 0
IsAbsent text (key, _) =
    (¬ Occurs (placeholder (codes "." ++ key)) text) × (¬ Occurs (placeholder key) text)

substitute_params_absent :
    (params : List (List ℕ × List ℕ)) (text : List ℕ)
    → All (IsAbsent text) params
    → substitute_params params text ≡ text
unfolding substitute_params
substitute_params_absent [] text absent = refl
substitute_params_absent ((key, value) ∷ params) text ((dotted, plain), absent) =
    rw (replace_absent (codes "." ++ key) value text dotted, replace_absent key value text plain)
      (substitute_params_absent params text absent)

-- A template in which no known placeholder occurs is left as it is.
pub substitute_template_absent :
    (tmpl item : List ℕ) (index : ℕ) (params : List (List ℕ × List ℕ))
    → ¬ Occurs (placeholder (codes "item")) tmpl
    → ¬ Occurs (placeholder (codes "index")) tmpl
    → All (IsAbsent tmpl) params
    → substitute_template tmpl item index params ≡ tmpl
unfolding substitute_template
substitute_template_absent tmpl item index params no_item no_index absent =
    rw
      (
        replace_absent (codes "item") item tmpl no_item,
        replace_absent (codes "index") (codes (to_string index)) tmpl no_index,
      )
      (substitute_params_absent params tmpl absent)
