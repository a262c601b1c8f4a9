-- ===== src/GraphDsl/Nodes.antt =====
-- The nodes that `validate_dsl` of harness/graph_dsl.py accepts.
use mathlib.Core.Path.{subst}
use jaros_code.Prelude.{
  String, ◌≡◌, refl, ◌↔◌, true, List, [], ◌∷◌, ◌++◌, if◌then◌else◌, inl, inr, Bool-cases, All,
}
use jaros_code.Permissions.{one_of}
use jaros_code.Exec.{Result, ok, err}
use jaros_code.Value.{Value, null, bool, num, str, array, object, truthy}
use jaros_code.GraphDsl.{
  vocab, Defect, no_nodes, node_missing_id, unknown_class, field, class_defects, Found, with_id,
  check_node, both, check_nodes,
}

-- An object with an id that is true and a class of the vocabulary.
abbrev pub IsNode : Value → Type 0
IsNode (object fs) =
    (truthy (field fs "id") ≡ true)
    × (c : String) × (field fs "class" ≡ str c)
    × (one_of c vocab ≡ true)
IsNode v = ⊥

abbrev pub id_list : Value → List Value
id_list (object fs) = field fs "id" ∷ []
id_list v = []

-- The ids of the nodes in their order.
abbrev pub ids_of : List Value → List Value
ids_of [] = []
ids_of (v ∷ vs) = id_list v ++ ids_of vs

-- The defects and the ids of a result that is no error
abbrev defects_in : Result Found → List Defect
defects_in (ok found) = found.0
defects_in (err e) = no_nodes ∷ []

abbrev pub ids_in : Result Found → List Value
ids_in (ok found) = found.1
ids_in (err e) = []

abbrev pub NoDefects : List Defect → Type 0
NoDefects [] = Unit
NoDefects (d ∷ ds) = ⊥

-- A result without a defect
abbrev pub Clean : Result Found → Type 0
Clean r = NoDefects (defects_in r)

pub NoDefects-append : (ds es : List Defect) → NoDefects (ds ++ es) ↔ (NoDefects ds × NoDefects es)
NoDefects-append [] es = (λ h. (tt, h), λ h. h.1)
NoDefects-append (d ∷ ds) es = (λ h. absurd h, λ h. absurd h.0)

pub NoDefects-empty : (ds : List Defect) → NoDefects ds → ds ≡ []
NoDefects-empty [] h = refl
NoDefects-empty (d ∷ ds) h = absurd h

class-known :
    (i c : Value)
    → Clean (with_id i (class_defects c))
    → ((t : String) × (c ≡ str t) × (one_of t vocab ≡ true))
      × (with_id i (class_defects c) ≡ ok ([], i ∷ []))
class-known i (str t) h = elim (Bool-cases (one_of t vocab)) [
  | inl hit ↦ ((t, refl, hit), rw hit refl)
  | inr miss ↦
      absurd
        (subst (λ b. Clean (with_id i (ok (if b then [] else unknown_class (str t) ∷ [])))) miss h)
]
class-known i null h = absurd h
class-known i (bool b) h = absurd h
class-known i (num n d s) h = absurd h
class-known i (array vs) h = absurd h
class-known i (object fs) h = absurd h

check_node-Clean :
    (v : Value) → Clean (check_node v) → IsNode v × (check_node v ≡ ok ([], id_list v))
check_node-Clean (object fs) h = elim (Bool-cases (truthy (field fs "id"))) [
  | inl there ↦
      let inner : Clean (with_id (field fs "id") (class_defects (field fs "class"))) =
        subst
          (λ b. Clean (
            if b
            then with_id (field fs "id") (class_defects (field fs "class"))
            else ok (node_missing_id ∷ [], [])))
          there h in
      let known = class-known (field fs "id") (field fs "class") inner in
      ((there, known.0.0, known.0.1, known.0.2), rw (there, known.1) refl)
  | inr absent ↦ absurd (
      subst
        (λ b. Clean (
          if b
          then with_id (field fs "id") (class_defects (field fs "class"))
          else ok (node_missing_id ∷ [], [])))
        absent h)
]
check_node-Clean null h = absurd h
check_node-Clean (bool b) h = absurd h
check_node-Clean (num n d s) h = absurd h
check_node-Clean (array vs) h = absurd h
check_node-Clean (str t) h = absurd h

IsNode-check : (v : Value) → IsNode v → check_node v ≡ ok ([], id_list v)
IsNode-check null h = absurd h
IsNode-check (bool b) h = absurd h
IsNode-check (num n d s) h = absurd h
IsNode-check (str t) h = absurd h
IsNode-check (array vs) h = absurd h
IsNode-check (object fs) (there, c, e, hit) = rw (there, e, hit) refl

both-Clean : (a b : Result Found) → Clean (both a b) → Clean a × Clean b
both-Clean (err e) b h = absurd h
both-Clean (ok a) (err e) h = absurd h
both-Clean (ok a) (ok b) h = (NoDefects-append a.0 b.0).0 h

pub check_nodes-Clean :
    (vs : List Value)
    → Clean (check_nodes vs)
    → All IsNode vs × (check_nodes vs ≡ ok ([], ids_of vs))
unfolding check_nodes
check_nodes-Clean [] h = (tt, refl)
check_nodes-Clean (v ∷ vs) h =
    let parts = both-Clean (check_node v) (check_nodes vs) h in
    let first = check_node-Clean v parts.0 in
    let rest = check_nodes-Clean vs parts.1 in ((first.0, rest.0), rw (first.1, rest.1) refl)

pub IsNode-check_nodes : (vs : List Value) → All IsNode vs → check_nodes vs ≡ ok ([], ids_of vs)
unfolding check_nodes
IsNode-check_nodes [] h = refl
IsNode-check_nodes (v ∷ vs) h = rw (IsNode-check v h.0, IsNode-check_nodes vs h.1) refl
