-- ===== src/Solving/Failing.antt =====
-- A failed step of `agent_loop` of harness/agent_loop.py: the plan is not done after it.
use jaros_code.Prelude.{
  ℕ, zero, suc, ◌+◌, String, ◌≡◌, refl, ap, sym, ◌∙◌, Bool, true, false, ◌&&◌, ◌||◌, List, [], ◌∷◌,
  ◌++◌, arith, ◌⊎◌, some, inl, inr, Bool-cases,
}
use jaros_code.Exec.{Exec, Result, ok, err, pure, ◌>>=◌, continue}
use jaros_code.Solving.AgentLoop.{
  Status, pending, done, failed, Step, Run, is_done, all_done, settled, replan_request, grounded,
  plan, replanned, round, loop, next_pending,
}
use jaros_code.Solving.Settling.{next_pending-cases}

abbrev pub is_failed : Status → Bool
is_failed pending = false
is_failed done = false
is_failed failed = true

abbrev pub has_failed : List Step → Bool
has_failed [] = false
has_failed (step ∷ todo) = is_failed step.status || has_failed todo

abbrev pub OnOk {κ} : {A : Type 0} → (A → Type κ) → Result A → Type κ
OnOk P (ok a) = P a
OnOk P (err e) = Unit

or_assoc : (a b c : Bool) → ((a || b) || c) ≡ (a || (b || c))
or_assoc true b c = refl
or_assoc false b c = refl

has_failed-append : (xs ys : List Step) → has_failed (xs ++ ys) ≡ (has_failed xs || has_failed ys)
has_failed-append [] ys = refl
has_failed-append (x ∷ xs) ys =
    rw (has_failed-append xs ys)
      (sym (or_assoc (is_failed x.status) (has_failed xs) (has_failed ys)))

failed-not_done : (st : Status) (b : Bool) → is_failed st ≡ true → (is_done st && b) ≡ false
failed-not_done pending b h = refl
failed-not_done done b h = ground (arith, h)
failed-not_done failed b h = refl

and_false : (a : Bool) → (a && false) ≡ false
and_false true = refl
and_false false = refl

has_failed-all_done : (todo : List Step) → has_failed todo ≡ true → all_done todo ≡ false
has_failed-all_done [] h = ground (arith, h)
has_failed-all_done (x ∷ todo) h = elim (Bool-cases (is_failed x.status)) [
  | inl here ↦ failed-not_done x.status (all_done todo) here
  | inr later ↦
      rw (has_failed-all_done todo (ground (arith, h, later))) (and_false (is_done x.status))
]

or_right : (a b : Bool) → b ≡ true → (a || b) ≡ true
or_right true b h = refl
or_right false b h = h

or_left : (a b : Bool) → a ≡ true → (a || b) ≡ true
or_left true b h = refl
or_left false b h = ground (arith, h)

kept : (a b c : Bool) → (a || c) ≡ true → (a || (b || c)) ≡ true
kept true b c h = refl
kept false b c h = or_right b c h

-- Settling a step that waits keeps the failures.
has_failed-settled :
    (before : List Step) (step : Step) (after : List Step) (result : Bool × String)
    → step.status ≡ pending
    → has_failed (before ++ step ∷ after) ≡ true
    → has_failed (before ++ settled step result ∷ after) ≡ true
has_failed-settled before step after result waits h =
    has_failed-append before (settled step result ∷ after)
    ∙ kept (has_failed before) (is_failed (settled step result).status) (has_failed after)
        (sym (rw (has_failed-append before (step ∷ after), waits) refl) ∙ h)

module _ {S : Type 0} (planner : String → Exec S (List Step))
    (execute_step : Step → Exec S (Bool × String)) (files : S → List String)
    (request : String) where
  HasFailed : Result (List Step) → Type 0
  HasFailed = OnOk (λ todo. has_failed todo ≡ true)

  extended-HasFailed :
      (todo : List Step) (r : Result (List Step)) (s : S)
      → has_failed todo ≡ true
      → HasFailed (continue r (λ more. pure (todo ++ more)) s).0
  unfolding HasFailed
  extended-HasFailed todo (ok more) s h =
      has_failed-append todo more ∙ or_left (has_failed todo) (has_failed more) h
  extended-HasFailed todo (err e) s h = tt

  replanned-HasFailed :
      (left : ℕ) (todo : List Step) (is_ok : Bool) (s : S)
      → has_failed todo ≡ true
      → HasFailed (replanned planner execute_step files request left todo is_ok s).0
  unfolding replanned plan HasFailed
  replanned-HasFailed zero todo is_ok s h = h
  replanned-HasFailed (suc left) todo true s h = h
  replanned-HasFailed (suc left) todo false s h =
      let text = grounded (files s) (replan_request request todo) in
      extended-HasFailed todo (planner text s).0 (planner text s).1 h

  NotDone : Result Run → Type 0
  NotDone = OnOk (λ run. all_done run.todo ≡ false)

  continue-NotDone :
      (r : Result (List Step)) (later : List Step → Exec S Run) (s : S)
      → ((todo : List Step) (s : S) → has_failed todo ≡ true → NotDone (later todo s).0)
      → HasFailed r
      → NotDone (continue r later s).0
  unfolding NotDone HasFailed
  continue-NotDone (ok todo) later s f h = f todo s h
  continue-NotDone (err e) later s f h = tt

  ran-NotDone :
      (r : Result (Bool × String)) (left : ℕ) (before : List Step) (step : Step) (after : List Step)
      → (later : List Step → Exec S Run) (s : S)
      → ((todo : List Step) (s : S) → has_failed todo ≡ true → NotDone (later todo s).0)
      → step.status ≡ pending
      → has_failed (before ++ step ∷ after) ≡ true
      → NotDone
          (continue r
            (λ result.
              replanned planner execute_step files request left
                (before ++ settled step result ∷ after)
                result.0
              >>= later)
            s).0
  unfolding NotDone
  ran-NotDone (ok result) left before step after later s f waits h =
      let todo = before ++ settled step result ∷ after in
      let r = replanned planner execute_step files request left todo result.0 s in
      continue-NotDone r.0 later r.1 f (
        replanned-HasFailed left todo result.0 s
          (has_failed-settled before step after result waits h))
  ran-NotDone (err e) left before step after later s f waits h = tt

  -- A step that failed before stays so.
  has_failed-NotDone :
      (left steps_run : ℕ) (todo : List Step) (s : S)
      → has_failed todo ≡ true
      → OnOk
          (λ run. all_done run.todo ≡ false)
          (loop planner execute_step files request left steps_run todo s).0
  unfolding loop round NotDone
  has_failed-NotDone zero k todo s h = has_failed-all_done todo h
  has_failed-NotDone (suc left) k todo s h = elim (next_pending-cases todo) [
    | inl (none_left, all_settled) ↦ rw none_left (has_failed-all_done todo h)
    | inr (before, (step, (after, next))) ↦ rw next.found (
        ran-NotDone (execute_step step s).0 left before step after
          (λ more. loop planner execute_step files request left (k + 1) more)
          (execute_step step s).1 (λ more t g. has_failed-NotDone left (k + 1) more t g) next.waits
          (sym (ap has_failed next.whole) ∙ h))
  ]

  -- The next step of a plan, and the observation with which its tool fails.
  pub record Fails (todo : List Step) (s : S) : Type 0 where
    pub before : List Step
    pub step : Step
    pub after : List Step
    pub observation : String
    pub found : next_pending todo ≡ some (before, (step, after))
    pub fails : (execute_step step s).0 ≡ ok (false, observation)

  failed_here :
      (before : List Step) (step : Step) (after : List Step) (observation : String)
      → has_failed (before ++ settled step (false, observation) ∷ after) ≡ true
  failed_here before step after observation =
      has_failed-append before (settled step (false, observation) ∷ after)
      ∙ or_right (has_failed before)
          (is_failed (settled step (false, observation)).status || has_failed after) refl

  Fails-NotDone :
      (left steps_run : ℕ) (todo : List Step) (s : S)
      → Fails todo s
      → NotDone (loop planner execute_step files request (suc left) steps_run todo s).0
  unfolding NotDone loop round
  Fails-NotDone left k todo s h =
      let next = h.before ++ settled h.step (false, h.observation) ∷ h.after in
      let t = (execute_step h.step s).1 in
      let r = replanned planner execute_step files request left next false t in
      rw (h.found, h.fails)
        (continue-NotDone r.0 (λ more. loop planner execute_step files request left (k + 1) more)
          r.1 (λ more u g. has_failed-NotDone left (k + 1) more u g)
          (replanned-HasFailed left next false t
            (failed_here h.before h.step h.after h.observation)))

  -- Where a step of the plan has failed before, or the tool of the next step fails, the loop does not
  -- report done, whatever the planner adds and the later steps do.
  pub loop-NotDone :
      (left steps_run : ℕ) (todo : List Step) (s : S)
      → (has_failed todo ≡ true) ⊎ Fails todo s
      → OnOk
          (λ run. all_done run.todo ≡ false)
          (loop planner execute_step files request (suc left) steps_run todo s).0
  unfolding NotDone
  loop-NotDone left k todo s (inl before) = has_failed-NotDone (suc left) k todo s before
  loop-NotDone left k todo s (inr fails) = Fails-NotDone left k todo s fails
