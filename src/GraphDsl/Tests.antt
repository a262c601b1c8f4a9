-- ===== src/GraphDsl/Tests.antt =====
-- Runs of the graph language and of the leaf programs.
use Prim.Native.String.{◌∷◌ as cons_char}
use jaros_code.Prelude.{
  ℕ, zero, suc, ◌-◌, ap, ◌∙◌, String, ◌≡◌, refl, ◌↔◌, Bool, true, false, Option, none, some, List,
  [], ◌∷◌, arith, str_eq, All,
}
use jaros_code.Text.{contains, starts_with, is_space, size}
use jaros_code.Words.{is_word}
use jaros_code.Dict.{lookup, assign}
use jaros_code.Exec.{ok, err}
use jaros_code.Value.{Value, null, str, array, object, nil, cons, end, entry, get, to_list, truthy}
use jaros_code.Adt.Ttl.{TtlOp, set_op, get_op, tick_op, new_ttl_store, ttl_step, ttl_line}
use jaros_code.Adt.Ttl
use jaros_code.Adt.Drive.{ttl_sequence}
use jaros_code.Adt.Classify.{ttl_store_class, classify, classify_confident, contains_needle, score}
use jaros_code.Adt.Naming
use jaros_code.GraphDsl.{
  Template, leaf_for_spec, type_error, check_nodes, edges_defects, validate_dsl, is_sql_mini_spec,
  is_json_path_spec, is_sqlite_kv_spec,
}
use jaros_code.GraphDsl.Validating
use jaros_code.GraphDsl.Choosing
use jaros_code.GraphDsl.TtlLeaf.{run_leaf}
use jaros_code.GraphDsl.TtlRefinement
use jaros_code.GraphDsl.JsonPathLeaf.{walk}
use jaros_code.GraphDsl.Resolving

abbrev as_it_is : String → String
as_it_is s = s

abbrev same_text : Value → Value → Bool
same_text (str s) (str t) = str_eq s t
same_text v w = false

abbrev no_characters : String → List String
no_characters s = []

-- The ttl leaf under the oracle's commands, with a printer for small numbers.
abbrev tally_marks : ℕ → String
tally_marks zero = "|"
tally_marks (suc n) = cons_char "|" (tally_marks n)

abbrev read_marks : String → Option (Bool × ℕ)
read_marks s = some (false, size s - 1)

size-marks : (n : ℕ) → size (tally_marks n) ≡ suc n
unfolding size
size-marks zero = refl
size-marks (suc n) = ap suc (size-marks n)

marks-is_word : (n : ℕ) → is_word (tally_marks n) ≡ true
unfolding is_space
marks-is_word zero = refl
marks-is_word (suc zero) = refl
marks-is_word (suc (suc n)) = marks-is_word (suc n)

read-marks : TtlRefinement.Shows read_marks tally_marks
read-marks n =
    (marks-is_word n, ap some (ap (λ m. (false, m)) (ap (λ m. m - 1) (size-marks n) ∙ omega arith)))

abbrev ttl_ops : List TtlOp
ttl_ops = set_op "k" "v" 1 ∷ get_op "k" ∷ tick_op ∷ get_op "k" ∷ set_op "k" "w" 0 ∷ get_op "k" ∷ []

ttl_lines :
    TtlRefinement.answers read_marks tally_marks (ttl_sequence [] tally_marks new_ttl_store ttl_ops)
    ≡ "ok" ∷ "v" ∷ "none" ∷ "ok" ∷ "none" ∷ []
unfolding ttl_sequence new_ttl_store ttl_step ttl_line Ttl.set Ttl.get Ttl.tick lookup assign
ttl_lines = refl

ttl_ops-IsPlain : All TtlRefinement.IsPlain ttl_ops
unfolding is_space
ttl_ops-IsPlain = ((refl, refl), (refl, (tt, (refl, ((refl, refl), (refl, tt))))))

run_leaf_example :
    run_leaf read_marks [] (TtlRefinement.session read_marks tally_marks 1000 new_ttl_store ttl_ops)
    ≡ (
      TtlRefinement.answers read_marks tally_marks
          (ttl_sequence [] tally_marks new_ttl_store ttl_ops),
      true,
    )
run_leaf_example =
    TtlRefinement.run_leaf-Refines read_marks tally_marks 1000 ttl_ops read-marks ttl_ops-IsPlain

abbrev never_queue : String → Bool
never_queue spec = false

abbrev kv_spec : String
kv_spec = "a sqlite key-value store that must persist"

kv_leaf : leaf_for_spec as_it_is contains never_queue kv_spec ≡ some "sqlite-kv"
unfolding leaf_for_spec is_sql_mini_spec is_json_path_spec is_sqlite_kv_spec contains starts_with
    classify_confident classify score contains_needle
kv_leaf = refl

abbrev keep : Template → List Template → Option String × List Template
keep t ts = (none, t ∷ ts)

leaf_for_spec_example : Choosing.IsBuildable same_text no_characters keep "sqlite-kv"
leaf_for_spec_example =
    Choosing.leaf_for_spec-IsBuildable same_text no_characters keep as_it_is contains never_queue
      kv_spec "sqlite-kv" kv_leaf

-- A class that is a list is no member of a set.
abbrev odd_graph : Value
odd_graph = object (
    entry "nodes" (array (cons (object (entry "id" (str "a") (entry "class" (array nil) end))) nil))
      end)

odd_graph_raises : validate_dsl same_text no_characters odd_graph ≡ err type_error
unfolding validate_dsl get to_list check_nodes edges_defects truthy
odd_graph_raises = refl

validate_dsl_example :
    (validate_dsl same_text no_characters odd_graph ≡ ok [])
    ↔ Validating.IsGraph same_text no_characters odd_graph
validate_dsl_example = Validating.validate_dsl-IsGraph same_text no_characters odd_graph

classify_example :
    (classify as_it_is contains "a cache with ttl" [] ≡ some ttl_store_class)
    ↔ Naming.IsTop (score as_it_is contains "a cache with ttl" []) ttl_store_class
classify_example = Naming.classify-IsTop as_it_is contains "a cache with ttl" [] ttl_store_class

no_ints : String → Option (Bool × ℕ)
no_ints s = none

abbrev document : Value
document = object (entry "a" (array (cons null nil)) end)

walk_example :
    (walk no_ints document ("a" ∷ []) ≡ some (array (cons null nil)))
    ↔ Resolving.Reaches no_ints document ("a" ∷ []) (array (cons null nil))
walk_example = Resolving.walk-Reaches no_ints document (array (cons null nil)) ("a" ∷ [])
