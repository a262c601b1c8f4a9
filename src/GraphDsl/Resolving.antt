-- ===== src/GraphDsl/Resolving.antt =====
-- What the leaf program JSON_PATH_LEAF of harness/graph_dsl.py prints, against a description of the values
-- that a path leads to.
use mathlib.Core.Path.{subst}
use jaros_code.Prelude.{
  ℕ, suc, String, ◌≡◌, refl, ap, sym, ◌∙◌, ◌↔◌, Bool, true, false, Option, none, some, List, [],
  ◌∷◌, ◌++◌, arith, length,
}
use jaros_code.Value.{Value, str, array, object, Items, Fields, get, to_list}
use jaros_code.GraphDsl.JsonPathLeaf.{item_at, indexed, descend, with_value, walk}

item_at-split :
    (vs : List Value) (i : ℕ) (v : Value)
    → item_at vs i ≡ some v
    → (before : List Value) × (after : List Value) × (vs ≡ before ++ v ∷ after)
      × (length before ≡ i)
item_at-split [] i v h = ground (arith, h)
item_at-split (w ∷ vs) ℕ.zero v h = ([], vs, ground (arith, h), refl)
item_at-split (w ∷ vs) (ℕ.suc i) v h =
    let (before, after, e, n) = item_at-split vs i v h in
    (w ∷ before, after, ap (λ l. w ∷ l) e, ap suc n)

item_at-append :
    (before : List Value) (v : Value) (after : List Value)
    → item_at (before ++ v ∷ after) (length before) ≡ some v
item_at-append [] v after = refl
item_at-append (w ∷ before) v after = item_at-append before v after

first :
    {vs : List Value} {v : Value} (before after : List Value)
    → vs ≡ before ++ v ∷ after
    → length before ≡ 0
    → vs ≡ v ∷ after
first [] after e n = e
first (w ∷ before) after e n = ground (arith, n)

module _ (parse_int : String → Option (Bool × ℕ)) where
  -- A segment leads to a value: the value of a key of an object, or an item of a list with as many
  -- before it as the segment says, where -0 is 0.
  pub data Leads : Value → String → Value → Type 0 where
    by_key :
        (fs : Fields) (seg : String) (v : Value) → get fs seg ≡ some v → Leads (object fs) seg v
    by_index :
        (vs : Items) (seg : String) (before after : List Value) (v : Value)
        → to_list vs ≡ before ++ v ∷ after
        → parse_int seg ≡ some (false, length before)
        → Leads (array vs) seg v
    by_minus_zero :
        (vs : Items) (seg : String) (after : List Value) (v : Value)
        → to_list vs ≡ v ∷ after
        → parse_int seg ≡ some (true, 0)
        → Leads (array vs) seg v

  pub data Reaches : Value → List String → Value → Type 0 where
    here : (v : Value) → Reaches v [] v
    through :
        (cur next v : Value) (seg : String) (segs : List String)
        → Leads cur seg next
        → Reaches next segs v
        → Reaches cur (seg ∷ segs) v

  indexed-Leads :
      (vs : Items) (seg : String) (v : Value) (read : Option (Bool × ℕ))
      → parse_int seg ≡ read
      → indexed (to_list vs) read ≡ some v
      → Leads (array vs) seg v
  indexed-Leads vs seg v none e h = ground (arith, h)
  indexed-Leads vs seg v (some (false, i)) e h =
      let (before, after, split, n) = item_at-split (to_list vs) i v h in
      by_index vs seg before after v split (e ∙ ap (λ m. some (false, m)) (sym n))
  indexed-Leads vs seg v (some (true, ℕ.zero)) e h =
      let (before, after, split, n) = item_at-split (to_list vs) 0 v h in
      by_minus_zero vs seg after v (first before after split n) e
  indexed-Leads vs seg v (some (true, ℕ.suc i)) e h = ground (arith, h)

  descend-Leads :
      (cur : Value) (seg : String) (v : Value)
      → descend parse_int cur seg ≡ some v
      → Leads cur seg v
  descend-Leads (object fs) seg v h = by_key fs seg v h
  descend-Leads (array vs) seg v h = indexed-Leads vs seg v (parse_int seg) refl h
  descend-Leads Value.null seg v h = ground (arith, h)
  descend-Leads (Value.bool b) seg v h = ground (arith, h)
  descend-Leads (Value.num n d s) seg v h = ground (arith, h)
  descend-Leads (str t) seg v h = ground (arith, h)

  Leads-descend :
      (cur : Value) (seg : String) (v : Value)
      → Leads cur seg v
      → descend parse_int cur seg ≡ some v
  Leads-descend _ _ _ (by_key fs seg v h) = h
  Leads-descend _ _ _ (by_index vs seg before after v split e) =
      rw (e, split) (item_at-append before v after)
  Leads-descend _ _ _ (by_minus_zero vs seg after v split e) = rw (e, split) refl

  follow :
      (cur : Value) (seg : String) (segs : List String) (v : Value) (found : Option Value)
      → descend parse_int cur seg ≡ found
      → with_value found (λ next. walk parse_int next segs) ≡ some v
      → (next : Value) × (descend parse_int cur seg ≡ some next)
        × (walk parse_int next segs ≡ some v)
  follow cur seg segs v none e h = ground (arith, h)
  follow cur seg segs v (some next) e h = (next, e, h)

  reached :
      (cur : Value) (segs : List String) (v : Value)
      → walk parse_int cur segs ≡ some v
      → Reaches cur segs v
  unfolding walk
  reached cur [] v h =
      let same : cur ≡ v = ground (arith, h) in subst (λ w. Reaches cur [] w) same (here cur)
  reached cur (seg ∷ segs) v h =
      let (next, e, rest) = follow cur seg segs v (descend parse_int cur seg) refl h in
      through cur next v seg segs (descend-Leads cur seg next e) (reached next segs v rest)

  Reaches-walk :
      (cur : Value) (segs : List String) (v : Value)
      → Reaches cur segs v
      → walk parse_int cur segs ≡ some v
  unfolding walk
  Reaches-walk _ _ _ (here v) = refl
  Reaches-walk _ _ _ (through cur next v seg segs leads rest) =
      rw (Leads-descend cur seg next leads) (Reaches-walk next segs v rest)

  -- The walk of the leaf program along the segments of a path ends at a value exactly where the path
  -- leads there: through the value of a key of an object, or the item of a list that has as many
  -- before it as the segment says.
  pub walk-Reaches :
      (document v : Value) (segs : List String)
      → (walk parse_int document segs ≡ some v) ↔ Reaches document segs v
  walk-Reaches document v segs = (reached document segs v, Reaches-walk document segs v)
