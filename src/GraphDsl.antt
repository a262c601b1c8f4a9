-- ===== src/GraphDsl.antt =====
-- harness/graph_dsl.py: the validation of a graph, the choice of a leaf for a specification, and the
-- program that is written for a graph of one leaf. Python's `==` of two JSON values, `str.lower`, and
-- what writes a file are parameters; the children model the leaf programs.
pub mod Nodes
pub mod Validating
pub mod Choosing
pub mod TtlLeaf
pub mod TtlRefinement
pub mod JsonPathLeaf
pub mod Resolving
mod Tests
use jaros_code.Prelude.{
  ℕ, String, Bool, true, false, not, ◌&&◌, ◌||◌, Option, none, some, List, [], ◌∷◌, ◌++◌, map,
  arith, any, str_eq, if◌then◌else◌,
}
use jaros_code.Text.{contains}
use jaros_code.Dict.{Dict, lookup}
use jaros_code.Adt.Classify.{AdtClass, class_id, classify_confident}
use jaros_code.Permissions.{one_of}
use jaros_code.Exec.{Error, other_error, Result, ok, err}
use jaros_code.Value.{
  Value, null, bool, num, str, array, object, Items, nil, cons, Fields, end, entry, to_list, get,
  truthy,
}

abbrev pub vocab : List String
vocab =
    "lru" ∷ "priority-queue" ∷ "ttl-store" ∷ "fifo" ∷ "ring-buffer" ∷ "kv-store" ∷ "calculator"
    ∷ "parser" ∷ "aggregator" ∷ "text-transform" ∷ "state-machine" ∷ "validator" ∷ "rate-limiter"
    ∷ "pub-sub" ∷ "graph" ∷ "stack" ∷ "codec" ∷ "datastore" ∷ "cli-tool" ∷ "sql-query-engine"
    ∷ "json-path-query" ∷ "sqlite-kv" ∷ "custom" ∷ []

-- The defects of a graph, each with the values that its text shows.
pub data Defect : Type 0 where
  not_an_object no_nodes node_missing_id bad_edge : Defect
  unknown_class : Value → Defect
  unknown_node : (from to : Value) → Defect

abbrev pub type_error : Error
type_error = other_error "TypeError"

abbrev value_or_null : Option Value → Value
value_or_null none = null
value_or_null (some v) = v

-- `d.get(key)`, whose None for a missing key is the None of a JSON null.
abbrev pub field : Fields → String → Value
field fs k = value_or_null (get fs k)

-- `value not in VOCAB`: a set hashes the value first.
abbrev pub class_defects : Value → Result (List Defect)
class_defects (str c) = ok (if one_of c vocab then [] else unknown_class (str c) ∷ [])
class_defects (array vs) = err type_error
class_defects (object fs) = err type_error
class_defects v = ok (unknown_class v ∷ [])

-- The defects found, and the ids.
abbrev pub Found : Type 0
Found = List Defect × List Value

abbrev pub with_id : Value → Result (List Defect) → Result Found
with_id node_id (err e) = err e
with_id node_id (ok ds) = ok (ds, node_id ∷ [])

abbrev pub check_fields : Fields → Result Found
check_fields fs =
    if truthy (field fs "id")
    then with_id (field fs "id") (class_defects (field fs "class"))
    else ok (node_missing_id ∷ [], [])

abbrev pub check_node : Value → Result Found
check_node (object fs) = check_fields fs
check_node v = ok (node_missing_id ∷ [], [])

abbrev pub both : Result Found → Result Found → Result Found
both (err e) rest = err e
both (ok found) (err e) = err e
both (ok (ds, ids)) (ok (es, js)) = ok (ds ++ es, ids ++ js)

unfoldable pub check_nodes : List Value → Result Found
check_nodes [] = ok ([], [])
check_nodes (v ∷ vs) = both (check_node v) (check_nodes vs)

abbrev key_list : Fields → List Value
key_list end = []
key_list (entry k v fs) = str k ∷ key_list fs

-- `for e in (value or [])`: a string runs over its characters, a dict over its keys.
abbrev pub iterate : (characters : String → List String) → Value → Result (List Value)
iterate characters (array vs) = ok (to_list vs)
iterate characters (str s) = ok (map str (characters s))
iterate characters (object fs) = ok (key_list fs)
iterate characters v = if truthy v then err type_error else ok []

module _ (same : Value → Value → Bool) where
  abbrev pub listed : List Value → Value → Bool
  listed ids v = any (same v) ids

  abbrev pub edge_fields_defects : List Value → Fields → List Defect
  edge_fields_defects ids fs =
      if not (listed ids (field fs "from")) || not (listed ids (field fs "to"))
      then unknown_node (field fs "from") (field fs "to") ∷ []
      else []

  abbrev pub edge_defects : List Value → Value → List Defect
  edge_defects ids (object fs) = edge_fields_defects ids fs
  edge_defects ids v = bad_edge ∷ []

  unfoldable pub edges_defects : List Value → List Value → List Defect
  edges_defects ids [] = []
  edges_defects ids (e ∷ es) = edge_defects ids e ++ edges_defects ids es

  abbrev pub then_edges : Result Found → Result (List Value) → Result (List Defect)
  then_edges (err e) edges = err e
  then_edges (ok (ds, ids)) (err e) = err e
  then_edges (ok (ds, ids)) (ok es) = ok (ds ++ edges_defects ids es)

  module _ (characters : String → List String) where
    abbrev pub validate_nodes : Value → Value → Result (List Defect)
    validate_nodes (array (cons n ns)) edges =
        then_edges (check_nodes (n ∷ to_list ns)) (iterate characters edges)
    validate_nodes v edges = ok (no_nodes ∷ [])

    unfoldable pub validate_dsl : Value → Result (List Defect)
    validate_dsl (object g) = validate_nodes (field g "nodes") (field g "edges")
    validate_dsl v = ok (not_an_object ∷ [])

-- The verified templates, and the class of node that stands for each.
pub data Template : Type 0 where
  ttl_store_leaf sql_mini_leaf json_path_leaf sqlite_kv_leaf : Template

unfoldable pub leaf_library : Dict Template
leaf_library =
    ("ttl-store", ttl_store_leaf)
    ∷ ("kv-store", ttl_store_leaf)
    ∷ ("sql-query-engine", sql_mini_leaf)
    ∷ ("json-path-query", json_path_leaf)
    ∷ ("sqlite-kv", sqlite_kv_leaf)
    ∷ []

module _ (lower : String → String) where
  unfoldable pub is_sql_mini_spec : String → Bool
  is_sql_mini_spec spec =
      contains (lower spec) "create table"
      && contains (lower spec) "select"
      && (contains (lower spec) "insert" || contains (lower spec) "query engine")

  unfoldable pub is_json_path_spec : String → Bool
  is_json_path_spec spec =
      contains (lower spec) "json"
      && contains (lower spec) "dotted"
      && (contains (lower spec) "resolve" || contains (lower spec) "query")

  unfoldable pub is_sqlite_kv_spec : String → Bool
  is_sqlite_kv_spec spec =
      contains (lower spec) "sqlite"
      && contains (lower spec) "key-value"
      && contains (lower spec) "persist"

  -- A class of the oracle where it has a leaf
  abbrev pub oracle_leaf : Option AdtClass → Option String
  oracle_leaf none = none
  oracle_leaf (some c) = elim (lookup leaf_library (class_id c)) [
    | none ↦ none
    | some template ↦ some (class_id c)
  ]

  abbrev pub spec_leaf : String → Option String
  spec_leaf spec =
      if is_sql_mini_spec spec
      then some "sql-query-engine"
      else if is_json_path_spec spec
      then some "json-path-query"
      else if is_sqlite_kv_spec spec
      then some "sqlite-kv"
      else none

  abbrev pub or_else : Option String → Option String → Option String
  or_else (some c) other = some c
  or_else none other = other

  module _ (has_word : (haystack needle : String) → Bool) (loose_queue : String → Bool) where
    unfoldable pub leaf_for_spec : String → Option String
    leaf_for_spec spec =
        or_else (oracle_leaf (classify_confident lower has_word loose_queue spec []))
          (spec_leaf spec)

-- The template of a node's class; a class that is no text has none.
abbrev pub template_of : Value → Option Template
template_of (str c) = lookup leaf_library c
template_of v = none

abbrev pub node_template : Value → Option Template
node_template (object fs) = template_of (field fs "class")
node_template v = none

abbrev pub only_template : Value → Option Template
only_template (array (cons n nil)) = node_template n
only_template v = none

abbrev pub graph_template : Value → Option Template
graph_template (object g) = only_template (field g "nodes")
graph_template v = none

-- `write` is `_jailed_write` to "main.py" under the root: the reason of a refusal, if there is one.
module _ {S : Type 0} (write : Template → S → Option String × S) where
  abbrev is_none : Option String → Bool
  is_none none = true
  is_none (some reason) = false

  abbrev written : Option String × S → Bool × S
  written (refused, s) = (is_none refused, s)

  abbrev pub write_template : Option Template → S → Bool × S
  write_template none s = (false, s)
  write_template (some template) s = written (write template s)

  unfoldable pub dsl_to_system : Value → S → Bool × S
  dsl_to_system graph s = write_template (graph_template graph) s
