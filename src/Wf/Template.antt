-- ===== src/Wf/Template.antt =====
-- crates/altair-wf/src/helpers.rs: the template of a text. A text is the list of its code points, and
-- a `HashMap` an association list in the order of its iteration, which the map does not promise.
pub mod Replaced
use Prim.Native.Nat.{zero, suc}
use altair_rs.Prelude.{
  ℕ, ◌-◌, Bool, true, false, ◌&&◌, List, [], ◌∷◌, ◌++◌, length, if◌then◌else◌, ◌==◌,
}
use altair_rs.Prelude.Text.{codes, to_string}

abbrev pub starts_with : List ℕ → List ℕ → Bool
starts_with [] text = true
starts_with (p ∷ pattern) [] = false
starts_with (p ∷ pattern) (c ∷ text) = p == c && starts_with pattern text

-- `replace` in the rest of a text whose first `skip` characters belong to a match.
unfoldable pub replace_from : List ℕ → List ℕ → ℕ → List ℕ → List ℕ
replace_from pattern to skip [] = []
replace_from pattern to (suc skip) (c ∷ text) = replace_from pattern to skip text
replace_from pattern to zero (c ∷ text) =
    let found = starts_with pattern (c ∷ text) in
    let rest = replace_from pattern to (if found then length pattern - 1 else 0) text in
    if found then to ++ rest else c ∷ rest

-- `str::replace`, for a pattern that is not empty.
abbrev pub replace : List ℕ → List ℕ → List ℕ → List ℕ
replace pattern to text = replace_from pattern to 0 text

-- `{{name}}`.
abbrev pub placeholder : List ℕ → List ℕ
placeholder name = codes "{{" ++ (name ++ codes "}}")

-- The loop over the parameters.
unfoldable pub substitute_params : List (List ℕ × List ℕ) → List ℕ → List ℕ
unfolding replace_from
substitute_params [] out = out
substitute_params ((key, value) ∷ params) out =
    let dotted = replace (placeholder (codes "." ++ key)) value out in
    substitute_params params (replace (placeholder key) value dotted)

unfoldable pub substitute_template : List ℕ → List ℕ → ℕ → List (List ℕ × List ℕ) → List ℕ
unfolding substitute_params
substitute_template tmpl item index params =
    let with_item = replace (placeholder (codes "item")) item tmpl in
    let with_index = replace (placeholder (codes "index")) (codes (to_string index)) with_item in
    substitute_params params with_index
