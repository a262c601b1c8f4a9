-- ===== src/Tally/Tests.antt =====
-- Runs of the tally with whole percentages as scores, and its theorem at such a run.
use jaros_code.Prelude.{ℕ, String, ◌≡◌, refl, Bool, some, [], ◌∷◌, arith, ltb}
use jaros_code.Tally.{
  Cell, CoverageTally, roster_rank, key_leq, insert_cell, sort_cells, of_class, best_model_for,
  ranked_models_for,
}
use jaros_code.Tally.Ranking.{IsOrder, IsBest, best_model_for-IsBest}

abbrev above : ℕ → ℕ → Bool
above a b = ltb b a

abbrev cell : (model_id class : String) (score : ℕ) → Cell ℕ
cell model_id class score = record { model_id = model_id; class = class; score = score }

abbrev three_models : CoverageTally ℕ
three_models = record {
  cells =
      cell "qwen" "fn-gen" 48
      ∷ cell "gemma" "fn-gen" 82
      ∷ cell "r1" "fn-gen" 82
      ∷ cell "r1" "repair" 17
      ∷ [];
  roster_order = "r1" ∷ "gemma" ∷ [];
  default_model = some "gemma";
}

above-IsOrder : IsOrder above
above-IsOrder = record {
  asymmetric = λ a b h. ground arith;
  transitive = λ a b c h k. ground arith;
}

-- A tie goes to the roster.
ranked_by_roster : ranked_models_for above three_models "fn-gen" ≡ "r1" ∷ "gemma" ∷ "qwen" ∷ []
unfolding ranked_models_for sort_cells insert_cell of_class key_leq roster_rank
ranked_by_roster = refl

best_model_for-IsBest_example :
    IsBest above three_models "fn-gen" (best_model_for above three_models "fn-gen")
best_model_for-IsBest_example = best_model_for-IsBest above three_models "fn-gen" above-IsOrder
