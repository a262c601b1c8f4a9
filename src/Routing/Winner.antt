-- ===== src/Routing/Winner.antt =====
-- What `solve_routed_escalating` of harness/solve_routed.py promises: the test alone picks the winner,
-- within the budget, and a model that passes is found.
use mathlib.Core.Path.{subst}
use jaros_code.Prelude.{
  ◌∙◌, ℕ, suc, ◌≤◌, String, ◌≡◌, refl, ap, sym, Bool, true, false, Option, none, some, List, [],
  ◌∷◌, ◌++◌, map, arith, length, length-take, length-append, take, inl, inr, ◌⊎◌, Bool-cases,
  str_eq, eq_iff,
}
use jaros_code.Exec.{Error, Result, ok, err}
use jaros_code.Permissions.{one_of}
use jaros_code.Routing.Router.{RoutingDecision}
use jaros_code.Routing.Rewire.{Rewired, is_ok}
use jaros_code.Routing.Escalation.{
  Solver, Attempt, Escalated, Tried, uncapped, escalation_order, after_test, after_solve, try_model,
  or_last, won, escalate_on, escalate, solve_routed_escalating,
}

true_not_false : true ≡ false → ⊥
true_not_false h = absurd (cc)

module _ {S Solution : Type 0} (solver : Solver S Solution) (labels : Bool)
    (d : RoutingDecision) where
  -- In a state, the rewire to a model works, its solve returns the solution, and the test passes it.
  pub record Passes (model : String) (s : S) (solution : Solution) : Type 0 where
    pub rewires : is_ok (solver.rewire_fn model s).0 ≡ true
    pub solves :
        let rewired = solver.rewire_fn model s in
        (solver.solve_fn (record d { model_id = model }) rewired.0 rewired.1).0 ≡ ok solution
    pub passes :
        let rewired = solver.rewire_fn model s in
        let ran = solver.solve_fn (record d { model_id = model }) rewired.0 rewired.1 in
        (solver.test_fn solution ran.1).0 ≡ ok true

  abbrev pub Fails : String → S → Type 0
  Fails model s = (solution : Solution) → Passes model s solution → ⊥

  -- The state in which the attempts of a list leave the run
  abbrev pub state_after : List Attempt → S → S
  state_after [] s = s
  state_after (a ∷ rest) s = state_after rest (try_model solver labels d a.model s).1

  -- No attempt of a list passed: each is marked so, and its model did not pass the test in the state
  -- that the attempts before it left.
  abbrev pub NonePassed : List Attempt → S → Type 0
  NonePassed [] s = Unit
  NonePassed (a ∷ rest) s =
      (a.passed ≡ false) × Fails a.model s × NonePassed rest (try_model solver labels d a.model s).1

  -- An escalation that ends with a winner: the last attempt, and no earlier one, passed the test, it
  -- is that of the winner, whose rewire worked and whose solution, the one that the test passed, is
  -- returned; the attempts are the first candidates, in order.
  pub record HasWinner (s : S) (order : List String) (winner : String) (e : Escalated Solution)
      : Type 0 where
    pub earlier : List Attempt
    pub last : Attempt
    pub untried : List String
    pub attempts : e.attempts ≡ earlier ++ last ∷ []
    pub failed_before : NonePassed earlier s
    pub passed : last.passed ≡ true
    pub rewired : last.rewire_ok ≡ true
    pub winner_last : last.model ≡ winner
    pub in_order : order ≡ map (λ a. a.model) e.attempts ++ untried
    pub solution : Solution
    pub returned : e.solve ≡ some solution
    pub tested : Passes winner (state_after earlier s) solution
    pub no_error : e.error ≡ none

  -- An escalation without a winner: every candidate was tried, in order, and none passed.
  pub record HasNoWinner (s : S) (order : List String) (e : Escalated Solution) : Type 0 where
    pub all_tried : map (λ a. a.model) e.attempts ≡ order
    pub none_passed : NonePassed e.attempts s
    pub error : e.error ≡ some "no candidate passed the test within budget"

  abbrev pub IsEscalated : S → List String → Option String → Escalated Solution → Type 0
  IsEscalated s order none e = HasNoWinner s order e
  IsEscalated s order (some winner) e = HasWinner s order winner e

  -- What one round in a state leaves.
  pub record IsTried (model : String) (s : S) (t : Tried Solution) : Type 0 where
    pub of_model : t.attempt.model ≡ model
    pub when_passed :
        ((t.attempt.passed ≡ false) × Fails model s)
        ⊎ ((t.attempt.passed ≡ true)
            × (t.attempt.rewire_ok ≡ true)
            × (solution : Solution) × (t.solution ≡ some solution)
            × Passes model s solution)

  no_ok : {A : Type 0} {e : Error} {a : A} → err e ≡ ok a → ⊥
  no_ok h = absurd (cc)

  ok_same : {A : Type 0} (a b : A) → ok a ≡ ok b → a ≡ b
  ok_same a b h = ap (λ r. elim r [ ok x ↦ x | err e ↦ a ]) h

  tested-IsTried :
      (model : String) (s : S) (solution : Solution) (verdict : Result Bool) (t : S)
      → let rewired = solver.rewire_fn model s in
        let ran = solver.solve_fn (record d { model_id = model }) rewired.0 rewired.1 in
        is_ok rewired.0 ≡ true
        → ran.0 ≡ ok solution
        → (solver.test_fn solution ran.1).0 ≡ verdict
        → IsTried model s (after_test solver labels d model solution verdict t).0
  tested-IsTried model s solution (ok true) t works solved passed = record {
    of_model = refl;
    when_passed =
        inr (
          refl,
          refl,
          solution,
          refl,
          record { rewires = works; solves = solved; passes = passed },
        );
  }
  tested-IsTried model s solution (ok false) t works solved failed = record {
    of_model = refl;
    when_passed = inl (
      refl,
      λ other p.
          let same = ok_same other solution (sym p.solves ∙ solved) in
          let verdict =
            sym (
              subst
                (λ x.
                  (solver.test_fn x
                    (solver.solve_fn (record d { model_id = model }) (solver.rewire_fn model s).0
                      (solver.rewire_fn model s).1).1).0
                  ≡ ok true)
                same p.passes)
            ∙ failed in
          true_not_false (ok_same true false verdict),
    );
  }
  tested-IsTried model s solution (err e) t works solved failed = record {
    of_model = refl;
    when_passed = inl (
      refl,
      λ other p.
          let same = ok_same other solution (sym p.solves ∙ solved) in
          no_ok (
            sym failed
            ∙ subst
                (λ x.
                  (solver.test_fn x
                    (solver.solve_fn (record d { model_id = model }) (solver.rewire_fn model s).0
                      (solver.rewire_fn model s).1).1).0
                  ≡ ok true)
                same p.passes),
    );
  }

  after_solve-IsTried :
      (model : String) (s : S) (o : Result Solution)
      → let rewired = solver.rewire_fn model s in
        let ran = solver.solve_fn (record d { model_id = model }) rewired.0 rewired.1 in
        is_ok rewired.0 ≡ true
        → ran.0 ≡ o
        → IsTried model s (after_solve solver labels d model o ran.1).0
  after_solve-IsTried model s (ok solution) works solved =
      let rewired = solver.rewire_fn model s in
      let ran = solver.solve_fn (record d { model_id = model }) rewired.0 rewired.1 in
      let tested = solver.test_fn solution ran.1 in
      tested-IsTried model s solution tested.0 tested.1 works solved refl
  after_solve-IsTried model s (err e) works raised = record {
    of_model = refl;
    when_passed = inl (refl, λ solution p. no_ok (sym raised ∙ p.solves));
  }

  try_model-IsTried :
      (model : String) (s : S) → IsTried model s (try_model solver labels d model s).0
  unfolding try_model
  try_model-IsTried model s =
      let rewired = solver.rewire_fn model s in
      let ran = solver.solve_fn (record d { model_id = model }) rewired.0 rewired.1 in
      elim (Bool-cases (is_ok rewired.0)) [
        | inl works ↦ rw works (after_solve-IsTried model s ran.0 works refl)
        | inr broken ↦ rw broken (record {
          of_model = refl;
          when_passed = inl (refl, λ solution p. true_not_false (sym p.rewires ∙ broken));
        })
      ]

  IsEscalated-cons :
      (model : String) (s : S) (t : Tried Solution) (models : List String) (o : Option String)
      (rest : Escalated Solution × S)
      → t.attempt.model ≡ model
      → t.attempt.passed ≡ false
      → Fails model s
      → IsEscalated (try_model solver labels d model s).1 models o rest.0
      → IsEscalated s (model ∷ models) o (escalate_on solver labels d t.attempt rest).0
  IsEscalated-cons model s t models none rest m failed fails h = record {
    all_tried = rw (m, h.all_tried);
    none_passed =
        subst
          (λ x.
            (t.attempt.passed ≡ false)
            × Fails x s
            × NonePassed rest.0.attempts (try_model solver labels d x s).1)
          (sym m) (failed, fails, h.none_passed);
    error = h.error;
  }
  IsEscalated-cons model s t models (some winner) rest m failed fails h = record {
    earlier = t.attempt ∷ h.earlier;
    last = h.last;
    untried = h.untried;
    attempts = ap (λ l. t.attempt ∷ l) h.attempts;
    failed_before =
        subst
          (λ x.
            (t.attempt.passed ≡ false)
            × Fails x s
            × NonePassed h.earlier (try_model solver labels d x s).1)
          (sym m) (failed, fails, h.failed_before);
    passed = h.passed;
    rewired = h.rewired;
    winner_last = h.winner_last;
    in_order = rw m (ap (λ l. model ∷ l) h.in_order);
    solution = h.solution;
    returned = h.returned;
    tested =
        subst
          (λ x. Passes winner (state_after h.earlier (try_model solver labels d x s).1) h.solution)
          (sym m) h.tested;
    no_error = h.no_error;
  }

  won-IsEscalated :
      (model : String) (s : S) (t : Tried Solution) (models : List String) (u : S)
      (solution : Solution)
      → t.attempt.model ≡ model
      → t.attempt.passed ≡ true
      → t.attempt.rewire_ok ≡ true
      → t.solution ≡ some solution
      → Passes model s solution
      → HasWinner s (model ∷ models) t.attempt.model (won solver labels d t u).0
  won-IsEscalated model s t models u solution m passed rewired returned passes = record {
    earlier = [];
    last = t.attempt;
    untried = models;
    attempts = refl;
    failed_before = tt;
    passed = passed;
    rewired = rewired;
    winner_last = refl;
    in_order = ap (λ x. x ∷ models) (sym m);
    solution = solution;
    returned = returned;
    tested = subst (λ x. Passes x s solution) (sym m) passes;
    no_error = refl;
  }

  pub escalate-IsEscalated :
      (order : List String) (last : Option Solution) (s : S)
      → let e = (escalate solver labels d order last s).0 in IsEscalated s order e.winner_model_id e
  unfolding escalate
  escalate-IsEscalated [] last s = record { all_tried = refl; none_passed = tt; error = refl }
  escalate-IsEscalated (model ∷ models) last s =
      let tried = try_model solver labels d model s in
      let h = try_model-IsTried model s in
      let rest =
        escalate solver labels d models (or_last solver labels d tried.0.solution last) tried.1 in
      elim h.when_passed [
        | inl (failed, fails) ↦ rw failed (
            IsEscalated-cons model s tried.0 models rest.0.winner_model_id rest h.of_model failed
              fails
              (escalate-IsEscalated models (or_last solver labels d tried.0.solution last) tried.1))
        | inr (passed, rewired, solution, returned, passes) ↦ rw passed (
            won-IsEscalated model s tried.0 models tried.1 solution h.of_model passed rewired
              returned passes)
      ]

  length-map : (as_made : List Attempt) → length (map (λ a. a.model) as_made) ≡ length as_made
  length-map [] = refl
  length-map (a ∷ rest) = ap suc (length-map rest)

  attempts_bound :
      (s : S) (order : List String) (o : Option String) (e : Escalated Solution)
      → IsEscalated s order o e
      → length e.attempts ≤ length order
  attempts_bound s order none e h = omega (arith, length-map e.attempts, ap length h.all_tried)
  attempts_bound s order (some winner) e h = omega (
    arith,
    length-map e.attempts,
    ap length h.in_order,
    length-append (map (λ a. a.model) e.attempts) h.untried,
  )

  -- The escalation tries at most `max_models` models, in the escalation order. If it has a winner,
  -- that model's attempt is the last one and the only one whose solution the test passed, in the
  -- state that the attempts before it left; its rewire worked, and the solution that its solve
  -- returned and the test passed is returned. If it has none, every model of the order was tried, none
  -- passed the test in its state, and the error says so.
  pub solve_routed_escalating-IsEscalated :
      (default : String) (ranked : List String) (max_models : ℕ) (s : S)
      → let e = (solve_routed_escalating solver labels d default ranked max_models s).0 in
        IsEscalated s (escalation_order default ranked max_models) e.winner_model_id e
        × (length e.attempts ≤ max_models)
  unfolding solve_routed_escalating escalation_order
  solve_routed_escalating-IsEscalated default ranked max_models s =
      let order = take max_models (uncapped default ranked) in
      let e = (escalate solver labels d order none s).0 in
      let h = escalate-IsEscalated order none s in
      (
        h,
        omega (
          arith,
          attempts_bound s order e.winner_model_id e h,
          length-take max_models (uncapped default ranked),
        ),
      )

  -- A model solves the problem whenever it is tried: its rewire works, its solve returns a solution,
  -- and the test passes what it returns.
  pub record Solves (model : String) : Type 0 where
    pub rewires : (s : S) → is_ok (solver.rewire_fn model s).0 ≡ true
    pub answer : S → Solution
    pub solves :
        (r : Rewired) (s : S)
        → (solver.solve_fn (record d { model_id = model }) r s).0 ≡ ok (answer s)
    pub passes : (r s : S) → (solver.test_fn (answer r) s).0 ≡ ok true

  try_model-Solves :
      (model : String) (s : S)
      → Solves model
      → (try_model solver labels d model s).0.attempt.passed ≡ true
  unfolding try_model
  try_model-Solves model s h =
      let rewired = solver.rewire_fn model s in
      let ran = solver.solve_fn (record d { model_id = model }) rewired.0 rewired.1 in
      rw (h.rewires s, h.solves rewired.0 rewired.1, h.passes rewired.1 ran.1)

  escalate-Solves :
      (order : List String) (last : Option Solution) (s : S) (model : String)
      → one_of model order ≡ true
      → Solves model
      → (winner : String) × ((escalate solver labels d order last s).0.winner_model_id
          ≡ some winner)
  unfolding escalate
  escalate-Solves [] last s model listed h = absurd (cc)
  escalate-Solves (m ∷ ms) last s model listed h =
      let tried = try_model solver labels d m s in
      elim (Bool-cases tried.0.attempt.passed) [
        | inl passed ↦ (tried.0.attempt.model, rw passed)
        | inr failed ↦ elim (Bool-cases (str_eq model m)) [
          | inl same ↦
              let solved = try_model-Solves model s h in
              let here : tried.0.attempt.passed ≡ true =
                subst (λ x. (try_model solver labels d x s).0.attempt.passed ≡ true)
                  ((eq_iff model m).0 same) solved in
              absurd (cc)
          | inr other ↦ rw failed (
              escalate-Solves ms (or_last solver labels d tried.0.solution last) tried.1 model
                (ground (arith, other, listed)) h)
        ]
      ]

  -- Where some model of the escalation order solves the problem whenever it is tried, the escalation
  -- ends with a winner, whatever the other models do.
  pub solve_routed_escalating-Solves :
      (default : String) (ranked : List String) (max_models : ℕ) (s : S) (model : String)
      → one_of model (escalation_order default ranked max_models) ≡ true
      → Solves model
      → (winner : String) × ((solve_routed_escalating solver labels d default ranked max_models
            s).0.winner_model_id
          ≡ some winner)
  unfolding solve_routed_escalating
  solve_routed_escalating-Solves default ranked max_models s model listed h =
      escalate-Solves (escalation_order default ranked max_models) none s model listed h
