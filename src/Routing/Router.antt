-- ===== src/Routing/Router.antt =====
-- harness/model_router.py: the class of a problem, and the model that takes it. A problem is a dict;
-- `show` is Python's `str`. Of the rationale a decision keeps what it says, and of the features those
-- that decide.
use jaros_code.Prelude.{
  ℕ, suc, String, Bool, true, false, ◌||◌, Option, none, some, List, [], ◌∷◌, ◌++◌, ltb, length,
  filter_map, if◌then◌else◌, find,
}
use jaros_code.Text.{◌<>◌, is_blank, contains}
use jaros_code.Value.{
  Value, str, array, object, Fields, end, entry, get, truthy, truthy_option, is_text_option,
  to_list,
}
use jaros_code.Dict.{Dict, lookup}
use jaros_code.Tally.{CoverageTally, best_model_for}
use jaros_code.Routing.Registry.{ModelRegistry, default_model}

-- Confidences in hundredths.
abbrev pub high_confidence : ℕ
high_confidence = 90

abbrev pub med_confidence : ℕ
med_confidence = 65

abbrev pub fallback_confidence : ℕ
fallback_confidence = 20

-- `_FAILURE_CLASS_MAP`
abbrev pub failure_class_map : Dict String
failure_class_map =
    ("AttributeError", "missing-method-or-attr")
    ∷ ("AssertionError", "logic-or-assertion")
    ∷ ("ValueError", "logic-or-assertion")
    ∷ ("TypeError", "signature-or-type")
    ∷ ("ImportError", "missing-import")
    ∷ ("ModuleNotFoundError", "missing-import")
    ∷ ("NameError", "undefined-name")
    ∷ ("IndexError", "bounds-or-key")
    ∷ ("KeyError", "bounds-or-key")
    ∷ []

-- `_ORDERED_ERRORS`
abbrev pub ordered_errors : List String
ordered_errors =
    "ModuleNotFoundError" ∷ "ImportError" ∷ "AttributeError" ∷ "TypeError" ∷ "AssertionError"
    ∷ "NameError" ∷ "IndexError" ∷ "KeyError" ∷ "ValueError" ∷ []

pub record Features : Type 0 where
  pub has_examples : Bool
  pub is_repo_task : Bool
  pub is_multi_file : Bool

-- `bool(flag)` of a flag that is not `None`, and the heuristic of one that is.
abbrev flag_or : Option Value → Bool → Bool
flag_or none heuristic = heuristic
flag_or (some Value.null) heuristic = heuristic
flag_or (some v) heuristic = truthy v

abbrev first_of : Option Value → Option Value → Option Value
first_of none other = other
first_of (some v) other = some v

abbrev source_of : (Value → String) → Option Value → String
source_of show none = ""
source_of show (some v) = show v

abbrev field_count : Fields → ℕ
field_count end = 0
field_count (entry k v fs) = suc (field_count fs)

-- More than one file, in a list or a dict.
abbrev several : Option Value → Bool
several (some (array vs)) = ltb 1 (length (to_list vs))
several (some (object fs)) = ltb 1 (field_count fs)
several _ = false

unfoldable pub extract_features : (Value → String) → Fields → Features
extract_features show problem =
    let source =
      source_of show
        (first_of (get problem "source") (first_of (get problem "prompt") (get problem "text"))) in
    record {
      has_examples = flag_or (get problem "has_examples") (contains source ">>>");
      is_repo_task = flag_or (get problem "is_repo_task") (
          truthy_option (get problem "repo_root")
          || truthy_option (get problem "repo_path")
          || is_text_option (get problem "task_type") "repo");
      is_multi_file = flag_or (get problem "is_multi_file") (several (get problem "files"));
    }

abbrev filled : Option Value → Option String
filled (some (str s)) = if is_blank s then none else some s
filled _ = none

abbrev with_traceback : Option Value → Option String
with_traceback (some (str s)) = if contains s "Traceback" then some s else none
with_traceback _ = none

-- The texts that may hold a failure.
unfoldable pub failure_texts : Fields → List String
failure_texts problem =
    filter_map (λ key. filled (get problem key))
      ("traceback" ∷ "test_output" ∷ "error" ∷ "failing_test" ∷ [])
    ++ filter_map (λ key. with_traceback (get problem key)) ("context" ∷ "task" ∷ [])

-- `"\n".join(candidates)`
unfoldable pub join_lines : List String → String
join_lines [] = ""
join_lines (l ∷ []) = l
join_lines (l ∷ m ∷ ls) = l <> "\n" <> join_lines (m ∷ ls)

abbrev pub error_in : List String → Option String
error_in [] = none
error_in (t ∷ ts) = find (λ error. contains (join_lines (t ∷ ts)) error) ordered_errors

-- The error type of `_failure_signal`.
unfoldable pub failure_signal : Fields → Option String
failure_signal problem = error_in (failure_texts problem)

pub data Method : Type 0 where
  failure_method structural : Method

pub record Classified : Type 0 where
  pub problem_class : String
  pub confidence : ℕ
  pub method : Method

unfoldable pub classify_deterministic : Features → Classified
classify_deterministic f =
    if f.is_multi_file || f.is_repo_task
    then record {
      problem_class = "multi-step-repo";
      confidence = high_confidence;
      method = structural;
    }
    else if f.has_examples
    then record {
      problem_class = "standalone-fn-gen";
      confidence = high_confidence;
      method = structural;
    }
    else record {
      problem_class = "single-file-repair";
      confidence = med_confidence;
      method = structural;
    }

abbrev pub mapped : Option String → Classified → Classified
mapped none fallback = fallback
mapped (some name) fallback = record {
  problem_class = name;
  confidence = high_confidence;
  method = failure_method;
}

abbrev pub class_of_signal : Option String → Option String
class_of_signal none = none
class_of_signal (some error) = lookup failure_class_map error

unfoldable pub classify : Fields → Features → Classified
classify problem f = mapped (class_of_signal (failure_signal problem)) (classify_deterministic f)

-- The decision of `route`; `is_gap` is the HARNESS-GAP of the rationale, on which the problem is
-- recorded as unhandled.
pub record RoutingDecision : Type 0 where
  pub model_id : String
  pub problem_class : String
  pub confidence : ℕ
  pub method : Method
  pub is_gap : Bool

abbrev pub routed : ModelRegistry → Classified → Option String → RoutingDecision
routed registry c (some best) = record {
  model_id = best;
  problem_class = c.problem_class;
  confidence = c.confidence;
  method = c.method;
  is_gap = false;
}
routed registry c none = record {
  model_id = default_model registry;
  problem_class = c.problem_class;
  confidence = fallback_confidence;
  method = c.method;
  is_gap = true;
}

module _ {Score : Type 0} (gt : Score → Score → Bool) (show : Value → String) where
  unfoldable pub route : Fields → ModelRegistry → CoverageTally Score → RoutingDecision
  unfolding extract_features classify
  route problem registry tally =
      let c = classify problem (extract_features show problem) in
      routed registry c (best_model_for gt tally c.problem_class)
