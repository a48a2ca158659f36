-- ===== src/Wf/Tests/Template.antt =====
-- Runs of the template of a text, crates/altair-wf/src/helpers.rs.
use altair_rs.Prelude.{ℕ, ◌≡◌, refl, List, [], ◌∷◌}
use altair_rs.Prelude.Text.{codes, to_string}
use altair_rs.Wf.Template.{substitute_template}

filled :
    substitute_template
      (codes "{{item}}-{{index}}-{{.tier}}-{{other}}")
      (codes "deploy")
      12
      ((codes "tier", codes "gold") ∷ [])
    ≡ codes "deploy-12-gold-{{other}}"
unfolding substitute_template to_string
filled = refl

-- The text that is put in is scanned again.
item_scanned : substitute_template (codes "{{item}}") (codes "{{index}}") 7 [] ≡ codes "7"
unfolding substitute_template to_string
item_scanned = refl

abbrev region : List ℕ × List ℕ
region = (codes "region", codes "{{zone}}")

abbrev zone : List ℕ × List ℕ
zone = (codes "zone", codes "eu")

-- Two orders of iteration of one map give different texts.
region_first : substitute_template (codes "{{region}}") [] 0 (region ∷ zone ∷ []) ≡ codes "eu"
unfolding substitute_template
region_first = refl

zone_first : substitute_template (codes "{{region}}") [] 0 (zone ∷ region ∷ []) ≡ codes "{{zone}}"
unfolding substitute_template
zone_first = refl
