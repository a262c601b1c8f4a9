-- ===== src/GraphDsl/Choosing.antt =====
-- A leaf that `leaf_for_spec` of harness/graph_dsl.py chooses can be built.
use mathlib.Core.Path.{subst}
use jaros_code.Prelude.{
  String, ◌≡◌, refl, Bool, true, false, Option, none, some, List, [], if◌then◌else◌, OnSome,
}
use jaros_code.Dict.{lookup}
use jaros_code.Exec.{ok}
use jaros_code.Value.{Value, str, array, object, nil, cons, end, entry, get, to_list, truthy}
use jaros_code.Adt.Classify.{
  AdtClass, lru_class, priority_queue_class, ttl_store_class, fifo_class, ring_buffer_class,
  classify_confident,
}
use jaros_code.Permissions.{one_of}
use jaros_code.GraphDsl.{
  vocab, Template, leaf_library, oracle_leaf, spec_leaf, or_else, leaf_for_spec, is_sql_mini_spec,
  is_json_path_spec, is_sqlite_kv_spec, check_nodes, edges_defects, validate_dsl, dsl_to_system,
  write_template,
}

-- The graph of one node.
abbrev pub single : String → Value
single c = object (
    entry "nodes" (array (cons (object (entry "id" (str "n1") (entry "class" (str c) end))) nil))
      end)

module _ (lower : String → String) where
  module _ {ℓ} (P : String → Type ℓ) where
    oracle_leaf-OnSome :
        (found : Option AdtClass) → P "ttl-store" → OnSome P (oracle_leaf lower found)
    unfolding leaf_library lookup
    oracle_leaf-OnSome none ttl = tt
    oracle_leaf-OnSome (some lru_class) ttl = tt
    oracle_leaf-OnSome (some priority_queue_class) ttl = tt
    oracle_leaf-OnSome (some ttl_store_class) ttl = ttl
    oracle_leaf-OnSome (some fifo_class) ttl = tt
    oracle_leaf-OnSome (some ring_buffer_class) ttl = tt

    if-OnSome :
        (b : Bool) (c : String) (o : Option String)
        → P c
        → OnSome P o
        → OnSome P (if b then some c else o)
    if-OnSome true c o h rest = h
    if-OnSome false c o h rest = rest

    or_else-OnSome :
        (o other : Option String) → OnSome P o → OnSome P other → OnSome P (or_else lower o other)
    or_else-OnSome none other h rest = rest
    or_else-OnSome (some c) other h rest = h

    leaf_for_spec-OnSome :
        (has_word : (haystack needle : String) → Bool) (loose_queue : String → Bool) (spec : String)
        → P "ttl-store"
        → P "sql-query-engine"
        → P "json-path-query"
        → P "sqlite-kv"
        → OnSome P (leaf_for_spec lower has_word loose_queue spec)
    unfolding leaf_for_spec
    leaf_for_spec-OnSome has_word loose_queue spec ttl sql path kv =
        or_else-OnSome (oracle_leaf lower (classify_confident lower has_word loose_queue spec []))
          (spec_leaf lower spec)
          (oracle_leaf-OnSome (classify_confident lower has_word loose_queue spec []) ttl)
          (if-OnSome (is_sql_mini_spec lower spec) "sql-query-engine" _ sql (
            if-OnSome (is_json_path_spec lower spec) "json-path-query" _ path
              (if-OnSome (is_sqlite_kv_spec lower spec) "sqlite-kv" none kv tt)))

module _ (same : Value → Value → Bool) (characters : String → List String) {S : Type 0}
    (write : Template → S → Option String × S) where
  abbrev Builds : String → Template → Type 0
  Builds c template =
      (s : S) → dsl_to_system write (single c) s ≡ write_template write (some template) s

  -- The graph of a class passes the validation, and what is written for it is a template.
  abbrev pub IsBuildable : String → Type 0
  IsBuildable c =
      (validate_dsl same characters (single c) ≡ ok [])
      × (template : Template) × (lookup leaf_library c ≡ some template)
      × Builds c template

  ready :
      (c : String) (template : Template)
      → one_of c vocab ≡ true
      → lookup leaf_library c ≡ some template
      → IsBuildable c
  unfolding validate_dsl get dsl_to_system to_list check_nodes edges_defects truthy
  ready c template known leaf = (rw known refl, template, leaf, λ s. rw leaf refl)

  -- Whatever leaf is chosen for a specification, the graph of its class alone has no defect, and
  -- what is written for that graph is the template that stands for the class, once; the
  -- construction succeeds exactly where that write is not refused.
  pub leaf_for_spec-IsBuildable :
      (lower : String → String) (has_word : (haystack needle : String) → Bool)
      (loose_queue : String → Bool) (spec c : String)
      → leaf_for_spec lower has_word loose_queue spec ≡ some c
      → IsBuildable c
  unfolding leaf_library lookup
  leaf_for_spec-IsBuildable lower has_word loose_queue spec c h = subst (OnSome IsBuildable) h (
      leaf_for_spec-OnSome lower IsBuildable has_word loose_queue spec
        (ready "ttl-store" _ refl refl) (ready "sql-query-engine" _ refl refl)
        (ready "json-path-query" _ refl refl) (ready "sqlite-kv" _ refl refl))
