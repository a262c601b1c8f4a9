-- ===== src/GraphDsl/JsonPathLeaf.antt =====
-- The leaf program JSON_PATH_LEAF of harness/graph_dsl.py. The arguments after the program's name, the
-- document that `json.load` gives, `none` where it raises, and what `split`, `int` and `json.dumps`
-- give are arguments.
use jaros_code.Prelude.{ℕ, String, Bool, Option, none, some, List, [], ◌∷◌, ◌==◌, if◌then◌else◌}
use jaros_code.Value.{Value, array, object, get, to_list}

-- `items[i] if 0 <= i < len(items)`
abbrev pub item_at : List Value → ℕ → Option Value
item_at [] i = none
item_at (v ∷ vs) ℕ.zero = some v
item_at (v ∷ vs) (ℕ.suc i) = item_at vs i

abbrev pub indexed : List Value → Option (Bool × ℕ) → Option Value
indexed vs none = none
indexed vs (some (negative, i)) =
    let found = item_at vs i in if negative then (if i == 0 then found else none) else found

abbrev pub with_value : Option Value → (Value → Option Value) → Option Value
with_value none f = none
with_value (some v) f = f v

module _ (parse_int : String → Option (Bool × ℕ)) where
  -- One turn of the loop over the segments, `none` where it prints null and returns
  abbrev pub descend : Value → String → Option Value
  descend (object fs) seg = get fs seg
  descend (array vs) seg = indexed (to_list vs) (parse_int seg)
  descend v seg = none

  unfoldable pub walk : Value → List String → Option Value
  walk cur [] = some cur
  walk cur (seg ∷ segs) = with_value (descend cur seg) (λ next. walk next segs)

  module _ (split_dots : String → List String) (dumps : Value → String) where
    abbrev printed_value : Option Value → String
    printed_value none = "null"
    printed_value (some v) = dumps v

    abbrev resolved : Option Value → String → Option Value
    resolved none path = none
    resolved (some document) path = walk document (split_dots path)

    -- What `main` prints.
    unfoldable pub json_path : (arguments : List String) → (document : Option Value) → String
    json_path [] document = "null"
    json_path (path ∷ rest) document = printed_value (resolved document path)
