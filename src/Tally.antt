-- ===== src/Tally.antt =====
-- harness/model_tally.py: which model is best for a class of problems. The tally's cells are the
-- state; how they are read from the profiles (`_parse_score` and the constructor) is left out, and a
-- score is a type with Python's `>` on floats.
pub mod Ranking
mod Tests
use Prim.Native.Char.{code}
use Prim.Native.String.{[] as nil, ◌∷◌ as cons}
use jaros_code.Prelude.{
  ℕ, zero, suc, String, Bool, true, false, Option, none, some, List, [], ◌∷◌, map, ltb, str_eq,
  length, if◌then◌else◌,
}

pub record Cell (Score : Type 0) : Type 0 where
  pub model_id : String
  pub class : String
  pub score : Score

-- The cells in insertion order, the roster, and the registry's default model, `none` where asking
-- for it raises.
pub record CoverageTally (Score : Type 0) : Type 0 where
  pub cells : List (Cell Score)
  pub roster_order : List String
  pub default_model : Option String

-- Python's `<=` on texts, by code points.
unfoldable pub text_leq : String → String → Bool
text_leq nil t = true
text_leq (cons c s) nil = false
text_leq (cons c s) (cons d t) =
    let rest = text_leq s t in
    if ltb (code c) (code d) then true else if ltb (code d) (code c) then false else rest

-- `self._roster_order.index(model_id)`, the length where it is missing
unfoldable pub roster_rank : List String → String → ℕ
roster_rank [] model_id = 0
roster_rank (id ∷ ids) model_id =
    let later = roster_rank ids model_id in if str_eq id model_id then 0 else suc later

-- `_default_rank`
abbrev pub default_rank : Option String → String → ℕ
default_rank none model_id = 1
default_rank (some id) model_id = if str_eq model_id id then 0 else 1

module _ {Score : Type 0} (gt : Score → Score → Bool) where
  -- Whether the sort key of one cell is at most that of another: the higher score, then the lower
  -- roster rank, then the default model, then the id.
  unfoldable pub key_leq : CoverageTally Score → Cell Score → Cell Score → Bool
  key_leq t a b =
      let rank_a = roster_rank t.roster_order a.model_id in
      let rank_b = roster_rank t.roster_order b.model_id in
      let default_a = default_rank t.default_model a.model_id in
      let default_b = default_rank t.default_model b.model_id in
      if gt a.score b.score
      then true
      else if gt b.score a.score
      then false
      else if ltb rank_a rank_b
      then true
      else if ltb rank_b rank_a
      then false
      else if ltb default_a default_b
      then true
      else if ltb default_b default_a
      then false
      else text_leq a.model_id b.model_id

  -- The stable sort by the key.
  unfoldable pub insert_cell :
      CoverageTally Score → Cell Score → List (Cell Score) → List (Cell Score)
  insert_cell t c [] = c ∷ []
  insert_cell t c (d ∷ ds) =
      let later = insert_cell t c ds in if key_leq t c d then c ∷ d ∷ ds else d ∷ later

  unfoldable pub sort_cells : CoverageTally Score → List (Cell Score) → List (Cell Score)
  sort_cells t [] = []
  sort_cells t (c ∷ cs) = insert_cell t c (sort_cells t cs)

  -- The cells of a class.
  unfoldable pub of_class : String → List (Cell Score) → List (Cell Score)
  of_class name [] = []
  of_class name (c ∷ cs) =
      let rest = of_class name cs in if str_eq c.class name then c ∷ rest else rest

  abbrev pub candidates : CoverageTally Score → String → List (Cell Score)
  candidates t name = of_class name t.cells

  abbrev pub first_id : List (Cell Score) → Option String
  first_id [] = none
  first_id (c ∷ cs) = some c.model_id

  unfoldable pub best_model_for : CoverageTally Score → String → Option String
  best_model_for t name = first_id (sort_cells t (candidates t name))

  unfoldable pub ranked_models_for : CoverageTally Score → String → List String
  ranked_models_for t name = map (λ c. c.model_id) (sort_cells t (candidates t name))
