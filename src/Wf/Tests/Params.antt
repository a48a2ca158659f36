-- ===== src/Wf/Tests/Params.antt =====
-- Runs of the combinations of parameters and of the validations.
use mathlib.Core.List.{Permᴰ}
use altair_rs.Prelude.Order.{text_order, IsSortedByKey}
use altair_rs.Prelude.{ℕ, ◌≡◌, refl, ◌≢◌, true, false, List, [], ◌∷◌, length, arith}
use altair_rs.Prelude.Text.{String, eq_iff, text_leb}
use altair_rs.Prelude.StringMap.{HasDistinctEntries}
use altair_rs.Wf.Types.{continue, PipelineInput, ParallelInput, LoopInput, ParameterizedLoopInput}
use altair_rs.Wf.Params.{generate_parameter_combinations}
use altair_rs.Wf.Params.Product.{product, product_size, generate_parameter_combinations-product}
use altair_rs.Wf.Tests.{small_number}

abbrev grid : List (String × List String)
grid = ("tier", "std" ∷ "gold" ∷ []) ∷ ("region", "us" ∷ []) ∷ []

abbrev grid_swapped : List (String × List String)
grid_swapped = ("region", "us" ∷ []) ∷ ("tier", "std" ∷ "gold" ∷ []) ∷ []

grid_combinations :
    generate_parameter_combinations grid
    ≡ (("region", "us") ∷ ("tier", "std") ∷ []) ∷ (("region", "us") ∷ ("tier", "gold") ∷ []) ∷ []
unfolding generate_parameter_combinations text_leb
grid_combinations = refl

tier≢region : ◌≢◌ {A = String} "tier" "region"
tier≢region = ground (arith, eq_iff "tier" "region")

grid-HasDistinctEntries : HasDistinctEntries grid
grid-HasDistinctEntries = ((tier≢region, tt), (tt, tt))

generate_parameter_combinations-product_example :
    (entries : List (String × List String)) × Permᴰ grid entries
    × IsSortedByKey (λ e. e.0) entries
    × (generate_parameter_combinations grid ≡ product entries)
    × (length (generate_parameter_combinations grid) ≡ product_size entries)
generate_parameter_combinations-product_example =
    generate_parameter_combinations-product grid grid-HasDistinctEntries (λ e. cc)

abbrev pipeline_input : PipelineInput ℕ
pipeline_input = record { tasks = 3 ∷ 5 ∷ []; stop_on_error = false; cleanup = true }

abbrev parallel_input : ParallelInput ℕ
parallel_input = record { tasks = []; failure_strategy = continue; max_in_flight = 0 }

abbrev loop_input : LoopInput ℕ
loop_input = record {
  items = "a" ∷ [];
  template = 3;
  parallel = true;
  failure_strategy = continue;
  max_in_flight = 0;
}

abbrev grid_input : ParameterizedLoopInput ℕ
grid_input = record {
  parameters = grid;
  template = 200;
  parallel = true;
  failure_strategy = continue;
  max_in_flight = 0;
}
