-- ===== src/Routing/Escalation.antt =====
-- `solve_routed` and `solve_routed_escalating` of harness/solve_routed.py. The rewire, the solve and
-- the test are parameters that act on a state, as the source's injected callables do; the solve and
-- the test may raise. `record_outcome` appends a label to the state.
use jaros_code.Prelude.{
  ℕ, String, Bool, true, false, Option, none, some, List, [], ◌∷◌, take, if◌then◌else◌,
}
use jaros_code.Text.{◌<>◌}
use jaros_code.Exec.{Error, Result, ok, err}
use jaros_code.Permissions.{one_of}
use jaros_code.Routing.Router.{RoutingDecision}
use jaros_code.Routing.Rewire.{Rewired, is_ok, message_of}

pub record Solver (S : Type 0) (Solution : Type 0) : Type 0 where
  pub rewire_fn : String → S → Rewired × S
  pub solve_fn : RoutingDecision → Rewired → S → Result Solution × S
  -- the test's "passed"
  pub test_fn : Solution → S → Result Bool × S
  pub record_outcome : (model_id problem_class : String) → Bool → S → S

-- What `solve_routed` returns; its "ok" is that there is no error.
pub record Solved (Solution : Type 0) : Type 0 where
  pub decision : RoutingDecision
  pub rewire : Rewired
  pub solve : Option Solution
  pub error : Option String

pub record Attempt : Type 0 where
  pub model : String
  pub rewire_ok : Bool
  pub passed : Bool
  pub error : Option String

pub record Escalated (Solution : Type 0) : Type 0 where
  pub winner_model_id : Option String
  pub attempts : List Attempt
  pub solve : Option Solution
  pub error : Option String

-- The candidates before the cap: the ranked models, behind the default model where it is not one of
-- them.
abbrev pub uncapped : String → List String → List String
uncapped default [] = default ∷ []
uncapped default (m ∷ ms) = if one_of default (m ∷ ms) then m ∷ ms else default ∷ m ∷ ms

unfoldable pub escalation_order : String → List String → ℕ → List String
escalation_order default ranked max_models = take max_models (uncapped default ranked)

abbrev rewire_error : Option String → String
rewire_error none = "rewire failed"
rewire_error (some e) = e

abbrev solve_raised : Error → String
solve_raised e = "solve_fn raised: " <> message_of e

-- One round of the loop: the attempt, and the solution where the solve returned one.
pub record Tried (Solution : Type 0) : Type 0 where
  pub attempt : Attempt
  pub solution : Option Solution

module _ {S Solution : Type 0} (solver : Solver S Solution) where
  abbrev solved_with : RoutingDecision → Rewired → Result Solution → S → Solved Solution × S
  solved_with d r (ok solution) s =
      (record { decision = d; rewire = r; solve = some solution; error = none }, s)
  solved_with d r (err e) s =
      (record { decision = d; rewire = r; solve = none; error = some (solve_raised e) }, s)

  -- `solve_routed` after the routing
  unfoldable pub solve_routed : RoutingDecision → S → Solved Solution × S
  solve_routed d s =
      let rewired = solver.rewire_fn d.model_id s in
      let ran = solver.solve_fn d rewired.0 rewired.1 in
      if is_ok rewired.0 then solved_with d rewired.0 ran.0 ran.1 else (
        record {
          decision = d;
          rewire = rewired.0;
          solve = none;
          error =
              some
                ("solve_routed short-circuited: rewire failed -- " <> rewire_error rewired.0.error);
        },
        rewired.1,
      )

  module _ (labels : Bool) (d : RoutingDecision) where
    abbrev attempt_of : String → Bool → Option String → Attempt
    attempt_of model passed error = record {
      model = model;
      rewire_ok = true;
      passed = passed;
      error = error;
    }

    abbrev passed_of : Result Bool → Bool
    passed_of (ok passed) = passed
    passed_of (err e) = false

    abbrev labelled : String → Bool → S → S
    labelled model passed s =
        if labels then solver.record_outcome model d.problem_class passed s else s

    abbrev pub after_test : String → Solution → Result Bool → S → Tried Solution × S
    after_test model solution verdict s = (
      record { attempt = attempt_of model (passed_of verdict) none; solution = some solution },
      labelled model (passed_of verdict) s,
    )

    abbrev pub after_solve : String → Result Solution → S → Tried Solution × S
    after_solve model (ok solution) s =
        let tested = solver.test_fn solution s in after_test model solution tested.0 tested.1
    after_solve model (err e) s =
        (record { attempt = attempt_of model false (some (solve_raised e)); solution = none }, s)

    unfoldable pub try_model : String → S → Tried Solution × S
    try_model model s =
        let rewired = solver.rewire_fn model s in
        let ran = solver.solve_fn (record d { model_id = model }) rewired.0 rewired.1 in
        if is_ok rewired.0 then after_solve model ran.0 ran.1 else (
          record {
            attempt = record {
              model = model;
              rewire_ok = false;
              passed = false;
              error = some (rewire_error rewired.0.error);
            };
            solution = none;
          },
          rewired.1,
        )

    abbrev pub or_last : Option Solution → Option Solution → Option Solution
    or_last none last = last
    or_last (some solution) last = some solution

    abbrev pub won : Tried Solution → S → Escalated Solution × S
    won tried s = (
      record {
        winner_model_id = some tried.attempt.model;
        attempts = tried.attempt ∷ [];
        solve = tried.solution;
        error = none;
      },
      s,
    )

    abbrev pub escalate_on : Attempt → Escalated Solution × S → Escalated Solution × S
    escalate_on attempt rest = (record rest.0 { attempts = attempt ∷ rest.0.attempts }, rest.1)

    -- The loop over the candidates; `last` is `last_solve_result`.
    unfoldable pub escalate : List String → Option Solution → S → Escalated Solution × S
    escalate [] last s = (
      record {
        winner_model_id = none;
        attempts = [];
        solve = last;
        error = some "no candidate passed the test within budget";
      },
      s,
    )
    escalate (model ∷ models) last s =
        let tried = try_model model s in
        let rest = escalate models (or_last tried.0.solution last) tried.1 in
        if tried.0.attempt.passed then won tried.0 tried.1 else escalate_on tried.0.attempt rest

    -- `solve_routed_escalating` after the routing
    unfoldable pub solve_routed_escalating :
        (default : String) → (ranked : List String) → ℕ → S → Escalated Solution × S
    solve_routed_escalating default ranked max_models s =
        escalate (escalation_order default ranked max_models) none s
