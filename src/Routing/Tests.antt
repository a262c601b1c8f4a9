-- ===== src/Routing/Tests.antt =====
-- Runs of the routing lifecycle, and its theorems at those runs.
use jaros_code.Prelude.{
  ℕ, ◌≤◌, String, ◌≡◌, refl, Bool, true, false, none, some, List, [], ◌∷◌, ◌⊎◌, arith, length, ltb,
  str_eq, if◌then◌else◌,
}
use jaros_code.Text.{contains, strip, ◌<>◌}
use jaros_code.Value.{Value, str, null, object, Fields, end, entry, get}
use jaros_code.Exec.{ok, err, other_error}
use jaros_code.Permissions.{one_of}
use jaros_code.Dict.{lookup, assign}
use jaros_code.Tally.{CoverageTally}
use jaros_code.Tally.Ranking.{IsOrder}
use jaros_code.Routing.Registry.{
  ModelProfile, ModelRegistry, new_registry, lookup_by_id, lookup_by_class,
}
use jaros_code.Routing.Router.{
  extract_features, failure_texts, join_lines, failure_signal, classify_deterministic, classify,
  RoutingDecision, structural, route,
}
use jaros_code.Routing.Classes.{
  router_classes, IsByFailure, classify_lem, IsMeasured, IsGap, route-IsMeasured,
}
use jaros_code.Routing.Rewire.{Serving, Clerk, Rewired, rewire}
use jaros_code.Routing.Rewired.{Explained, rewire-Explained, rewire-served}
use jaros_code.Routing.Escalation.{
  Solver, escalation_order, try_model, escalate, solve_routed, solve_routed_escalating,
}
use jaros_code.Routing.Winner.{
  IsEscalated, Solves, solve_routed_escalating-IsEscalated, solve_routed_escalating-Solves,
}

abbrev gemma : ModelProfile
gemma = record {
  id = "gemma";
  alias = "gemma-alias";
  classes = entry "name" (str "fn-gen") end ∷ [];
  adaptation = null;
}

abbrev qwen : ModelProfile
qwen = record { id = "qwen"; alias = "qwen-alias"; classes = []; adaptation = null }

abbrev two_profiles : ModelRegistry
two_profiles = record {
  profiles = ("gemma", gemma) ∷ ("qwen", qwen) ∷ [];
  default_id = "gemma";
  roster_order = [];
}

registry_of_profiles : new_registry (gemma ∷ qwen ∷ []) "gemma" [] ≡ two_profiles
unfolding new_registry assign
registry_of_profiles = refl

measured_only : lookup_by_class two_profiles "fn-gen" ≡ "gemma" ∷ []
unfolding lookup_by_class get
measured_only = refl

abbrev shown : Value → String
shown v = "text"

abbrev failing : Fields
failing =
    entry "is_repo_task" (Value.bool true)
      (entry "traceback" (str "KeyError: 'a', not ImportError") end)

-- The order of the list decides, not the order in the text, and the failure goes before the structure.
failing_class : (classify failing (extract_features shown failing)).problem_class ≡ "missing-import"
unfolding classify extract_features failure_signal failure_texts join_lines contains
    jaros_code.Text.starts_with strip get classify_deterministic lookup jaros_code.Value.truthy
failing_class = refl

classify_lem_example :
    (one_of (classify failing (extract_features shown failing)).problem_class router_classes ≡ true)
    × ((classify failing (extract_features shown failing)
          ≡ classify_deterministic (extract_features shown failing))
        ⊎ IsByFailure failing (classify failing (extract_features shown failing)))
classify_lem_example = classify_lem failing (extract_features shown failing)

abbrev above : ℕ → ℕ → Bool
above a b = ltb b a

above-IsOrder : IsOrder above
above-IsOrder = record {
  asymmetric = λ a b h. ground arith;
  transitive = λ a b c h k. ground arith;
}

abbrev one_cell : CoverageTally ℕ
one_cell = record {
  cells = record { model_id = "qwen"; class = "missing-import"; score = 50 } ∷ [];
  roster_order = [];
  default_model = some "gemma";
}

route-IsMeasured_example :
    let c = classify failing (extract_features shown failing) in
    let d = route above shown failing two_profiles one_cell in
    (d.problem_class ≡ c.problem_class)
    × (IsMeasured above one_cell c d ⊎ IsGap above two_profiles one_cell c d)
route-IsMeasured_example = route-IsMeasured above shown failing two_profiles one_cell above-IsOrder

-- The world is the alias that is served; the swap of "qwen" fails.
abbrev manager : Clerk String
manager = record {
  serving_state = λ w. (ok (some w), w);
  swap =
      λ m w. if str_eq m "qwen" then (err (other_error "timeout"), w) else (ok tt, "gemma-alias");
  activate = λ v alias w. (ok ("tools" ∷ []), w);
}

abbrev idle : Serving String
idle = record { world = "other"; client_alias = none }

abbrev serving : Serving String
serving = record { world = "gemma-alias"; client_alias = none }

failed_swap : (rewire manager "qwen" two_profiles idle).0.error ≡ some "Swap failed: timeout"
unfolding rewire lookup_by_id lookup
failed_swap = refl

rewire-Explained_example :
    let done = rewire manager "gemma" two_profiles idle in
    Explained manager two_profiles "gemma" idle done.0 done.1
rewire-Explained_example = rewire-Explained manager "gemma" two_profiles idle

rewire-served_example :
    let done = rewire manager "gemma" two_profiles serving in
    (done.0.swapped ≡ false)
    × (done.1.world ≡ "gemma-alias")
    × (done.1.client_alias ≡ some "gemma-alias")
    × (done.0.error ≡ none)
unfolding lookup_by_id lookup
rewire-served_example =
    rewire-served manager "gemma" two_profiles serving gemma "gemma-alias" refl refl

abbrev report : (model : String) → Bool → Rewired
report model works = record {
  model_id = model;
  swapped = works;
  served_before = none;
  served_after = none;
  adaptation_active = [];
  error = (if works then none else some "unreachable");
}

-- The state is the log of the labels; "qwen" cannot be reached and "gemma" answers wrongly.
abbrev three_models : Solver (List String) String
three_models = record {
  rewire_fn = λ m s. (report m (if str_eq m "qwen" then false else true), s);
  solve_fn = λ d r s. (ok d.model_id, s);
  test_fn = λ answer s. (ok (str_eq answer "r1"), s);
  record_outcome = λ m c passed s. m ∷ s;
}

abbrev decision : RoutingDecision
decision = record {
  model_id = "qwen";
  problem_class = "fn-gen";
  confidence = 90;
  method = structural;
  is_gap = false;
}

third_wins :
    (solve_routed_escalating three_models true decision "gemma"
      ("qwen" ∷ "r1" ∷ "big" ∷ [])
      3
      []).0.winner_model_id
    ≡ some "r1"
unfolding solve_routed_escalating escalation_order escalate try_model
third_wins = refl

-- Only tested models are labelled.
two_labels :
    (solve_routed_escalating three_models true decision "gemma" ("qwen" ∷ "r1" ∷ "big" ∷ []) 3 []).1
    ≡ "r1" ∷ "gemma" ∷ []
unfolding solve_routed_escalating escalation_order escalate try_model
two_labels = refl

-- A failed rewire is never followed by a solve.
unreachable : (solve_routed three_models decision []).0.solve ≡ none
unfolding solve_routed
unreachable = refl

solve_routed_escalating-IsEscalated_example :
    let e =
      (solve_routed_escalating three_models true decision "gemma" ("qwen" ∷ "r1" ∷ []) 2 []).0 in
    IsEscalated three_models true decision []
      (escalation_order "gemma" ("qwen" ∷ "r1" ∷ []) 2)
      e.winner_model_id
      e
    × (length e.attempts ≤ 2)
solve_routed_escalating-IsEscalated_example =
    solve_routed_escalating-IsEscalated three_models true decision "gemma" ("qwen" ∷ "r1" ∷ []) 2 []

r1-Solves : Solves three_models true decision "r1"
r1-Solves = record {
  rewires = λ s. refl;
  answer = λ s. "r1";
  solves = λ r s. refl;
  passes = λ r s. refl;
}

solve_routed_escalating-Solves_example :
    (winner : String) × ((solve_routed_escalating three_models true decision "gemma"
        ("qwen" ∷ "r1" ∷ [])
        3
        []).0.winner_model_id
      ≡ some winner)
unfolding escalation_order
solve_routed_escalating-Solves_example =
    solve_routed_escalating-Solves three_models true decision "gemma" ("qwen" ∷ "r1" ∷ []) 3 [] "r1"
      refl r1-Solves
