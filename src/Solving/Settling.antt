-- ===== src/Solving/Settling.antt =====
-- What `agent_loop` of harness/agent_loop.py leaves of its plan.
use jaros_code.Prelude.{
  ℕ, zero, suc, ◌+◌, ◌≤◌, ◌<◌, String, ◌≡◌, refl, ap, sym, ◌∙◌, Bool, true, false, none, some, List,
  [], ◌∷◌, ◌++◌, arith, All, ◌⊎◌, inl, inr, append-nil, Bool-cases, ltb, length, length-append,
  ◌&&◌, ◌↔◌,
}
use jaros_code.Exec.{Exec, ok}
use jaros_code.Solving.AgentLoop.{
  Status, pending, done, failed, Step, Run, AgentResult, put_before, next_pending, settled,
  grounded, replan_request, started, plan, replanned, round, loop, result_of, agent_loop, all_done,
  is_done,
}

-- A call comes back with a value, in every state.
abbrev pub Returns : {S A : Type 0} → Exec S A → Type 0
Returns {A = A} m = (s : _) → (a : A) × ((m s).0 ≡ ok a)

abbrev pub is_pending : Status → Bool
is_pending pending = true
is_pending done = false
is_pending failed = false

abbrev pub AllPending : List Step → Type 0
AllPending todo = All (λ step. step.status ≡ pending) todo

-- No step waits.
abbrev pub NonePending : List Step → Type 0
NonePending todo = All (λ step. is_pending step.status ≡ false) todo

abbrev count_in : Status → ℕ → ℕ
count_in pending n = n
count_in done n = suc n
count_in failed n = suc n

-- The number of steps that were carried out
abbrev pub carried_out : List Step → ℕ
carried_out [] = 0
carried_out (step ∷ todo) = count_in step.status (carried_out todo)

count_in-+ : (st : Status) (k m n : ℕ) → k ≡ m + n → count_in st k ≡ count_in st m + n
count_in-+ pending k m n h = h
count_in-+ done k m n h = omega (arith, h)
count_in-+ failed k m n h = omega (arith, h)

carried_out-append : (xs ys : List Step) → carried_out (xs ++ ys) ≡ carried_out xs + carried_out ys
carried_out-append [] ys = omega arith
carried_out-append (x ∷ xs) ys =
    count_in-+ x.status (carried_out (xs ++ ys)) (carried_out xs) (carried_out ys)
      (carried_out-append xs ys)

carried_out-AllPending : (xs : List Step) → AllPending xs → carried_out xs ≡ 0
carried_out-AllPending [] h = refl
carried_out-AllPending (x ∷ xs) h = rw h.0 (carried_out-AllPending xs h.1)

-- What the search for the next step finds.
pub record IsNext (todo before : List Step) (step : Step) (after : List Step) : Type 0 where
  pub found : next_pending todo ≡ some (before, (step, after))
  pub whole : todo ≡ before ++ step ∷ after
  pub waits : step.status ≡ pending

abbrev pub NextCases : List Step → Type 0
NextCases todo =
    ((next_pending todo ≡ none) × NonePending todo)
    ⊎ ((before : List Step) × ((step : Step) × ((after : List Step) × IsNext todo before step
              after)))

skipped :
    (x : Step) (todo : List Step)
    → is_pending x.status ≡ false
    → next_pending (x ∷ todo) ≡ put_before x (next_pending todo)
    → NextCases todo
    → NextCases (x ∷ todo)
skipped x todo p skip (inl (n, h)) = inl (skip ∙ rw n refl, (p, h))
skipped x todo p skip (inr (before, (step, (after, next)))) = inr (
  x ∷ before,
  (
    step,
    (
      after,
      record {
        found = skip ∙ rw next.found refl;
        whole = ap (λ rest. x ∷ rest) next.whole;
        waits = next.waits;
      },
    ),
  ),
)

next_at :
    (x : Step) (todo : List Step) (st : Status)
    → x.status ≡ st
    → NextCases todo
    → NextCases (x ∷ todo)
unfolding next_pending
next_at x todo pending e rest =
    inr ([], (x, (todo, record { found = rw e refl; whole = refl; waits = e })))
next_at x todo done e rest = skipped x todo (rw e refl) (rw e refl) rest
next_at x todo failed e rest = skipped x todo (rw e refl) (rw e refl) rest

pub next_pending-cases : (todo : List Step) → NextCases todo
unfolding next_pending
next_pending-cases [] = inl (refl, tt)
next_pending-cases (x ∷ todo) = next_at x todo x.status refl (next_pending-cases todo)

-- Settling the next step carries out one more.
carried_out-settled :
    (before : List Step) (step : Step) (after : List Step) (result : Bool × String)
    → step.status ≡ pending
    → carried_out (before ++ settled step result ∷ after)
      ≡ suc (carried_out (before ++ step ∷ after))
carried_out-settled before step after (true, text) waits =
    rw
      (
        carried_out-append before (settled step (true, text) ∷ after),
        carried_out-append before (step ∷ after),
        waits,
      )
      (omega arith)
carried_out-settled before step after (false, text) waits =
    rw
      (
        carried_out-append before (settled step (false, text) ∷ after),
        carried_out-append before (step ∷ after),
        waits,
      )
      (omega arith)

-- All steps are done, and there is one.
abbrev pub AllDone : List Step → Type 0
AllDone [] = ⊥
AllDone (step ∷ todo) = All (λ each. each.status ≡ done) (step ∷ todo)

done_iff : (st : Status) → (is_done st ≡ true) ↔ (st ≡ done)
done_iff pending = (λ h. ground (arith, h), λ h. sym (ap is_done (sym h)))
done_iff done = (λ h. refl, λ h. refl)
done_iff failed = (λ h. ground (arith, h), λ h. sym (ap is_done (sym h)))

and_true : (a b : Bool) → ((a && b) ≡ true) ↔ ((a ≡ true) × (b ≡ true))
and_true true b = (λ h. (refl, h), λ h. h.1)
and_true false b = (λ h. (h, ground (arith, h)), λ h. h.0)

all_done-All : (todo : List Step) → (all_done todo ≡ true) ↔ All (λ each. each.status ≡ done) todo
all_done-All [] = (λ h. tt, λ h. refl)
all_done-All (step ∷ todo) =
    let parts = and_true (is_done step.status) (all_done todo) in
    let first = done_iff step.status in
    let rest = all_done-All todo in
    (λ h. (first.0 (parts.0 h).0, rest.0 (parts.0 h).1), λ h. parts.1 (first.1 h.0, rest.1 h.1))

all_done-AllDone :
    (n : ℕ) (todo : List Step) → suc n ≤ length todo → (all_done todo ≡ true) ↔ AllDone todo
all_done-AllDone n [] h = absurd (omega (arith, h))
all_done-AllDone n (step ∷ todo) h = all_done-All (step ∷ todo)

module _ {S : Type 0} (planner : String → Exec S (List Step))
    (execute_step : Step → Exec S (Bool × String)) (files : S → List String)
    (request : String) where
  -- A planner comes back with steps that wait.
  abbrev pub Plans : Type 0
  Plans =
      (text : String) (s : S)
      → (more : List Step) × ((planner text s).0 ≡ ok more) × AllPending more

  -- What the loop makes of a plan within its budget: it returns, within the budget; as many steps
  -- are carried out as it counts; and no step waits where budget is left.
  record IsSettled (left steps_run : ℕ) (todo : List Step) (s : S) : Type 0 where
    run : Run
    returns : (loop planner execute_step files request left steps_run todo s).0 ≡ ok run
    bounded : run.steps_run ≤ steps_run + left
    counted : carried_out run.todo + steps_run ≡ run.steps_run + carried_out todo
    finished : (run.steps_run < steps_run + left) → NonePending run.todo
    kept : length todo ≤ length run.todo

  replanned-AllPending :
      Plans
      → (left : ℕ) (todo : List Step) (is_ok : Bool) (s : S)
      → (more : List Step) × ((replanned planner execute_step files request left todo is_ok s).0
          ≡ ok (todo ++ more))
        × AllPending more
  unfolding replanned plan
  replanned-AllPending plans zero todo is_ok s = ([], ap ok (sym (append-nil todo)), tt)
  replanned-AllPending plans (suc left) todo true s = ([], ap ok (sym (append-nil todo)), tt)
  replanned-AllPending plans (suc left) todo false s =
      let more = plans (grounded (files s) (replan_request request todo)) s in
      (more.0, rw more.1 refl, more.2)

  loop-IsSettled :
      Plans
      → ((step : Step) → Returns (execute_step step))
      → (left steps_run : ℕ) (todo : List Step) (s : S) → IsSettled left steps_run todo s
  unfolding loop round
  loop-IsSettled plans tools zero k todo s = record {
    run = record { todo = todo; steps_run = k };
    returns = refl;
    bounded = omega arith;
    counted = omega arith;
    finished = λ h. ground arith;
    kept = omega arith;
  }
  loop-IsSettled plans tools (suc left) k todo s = elim (next_pending-cases todo) [
    | inl (none_left, all_settled) ↦ record {
      run = record { todo = todo; steps_run = k };
      returns = rw none_left refl;
      bounded = omega arith;
      counted = omega arith;
      finished = λ h. all_settled;
      kept = omega arith;
    }
    | inr (before, (step, (after, next))) ↦
        let ran = tools step s in
        let todo' = before ++ settled step ran.0 ∷ after in
        let s' = (execute_step step s).1 in
        let more = replanned-AllPending plans left todo' ran.0.0 s' in
        let rest =
          loop-IsSettled plans tools left (k + 1) (todo' ++ more.0)
            (replanned planner execute_step files request left todo' ran.0.0 s').1 in
        let one_more = carried_out-settled before step after ran.0 next.waits in
        let sum = carried_out-append todo' more.0 in
        let waiting = carried_out-AllPending more.0 more.2 in
        let whole = ap carried_out next.whole in
        record {
          run = rest.run;
          returns = rw (next.found, ran.1, more.1) rest.returns;
          bounded = omega (arith, rest.bounded);
          counted = omega (arith, rest.counted, one_more, sum, waiting, whole);
          finished = λ h. rest.finished (omega (arith, h));
          kept = omega (
            arith,
            rest.kept,
            length-append todo' more.0,
            length-append before (settled step ran.0 ∷ after),
            length-append before (step ∷ after),
            ap length next.whole,
          );
        }
  ]

  started-IsSettled :
      Plans
      → ((step : Step) → Returns (execute_step step))
      → (max_steps : ℕ) (todo : List Step) → AllPending todo
      → (s : S)
      → (r : AgentResult) × ((started planner execute_step files request max_steps todo s).0 ≡ ok r)
        × (r.steps_run ≤ max_steps)
        × (carried_out r.todo ≡ r.steps_run)
        × ((r.steps_run ≡ max_steps) ⊎ NonePending r.todo)
        × ((r.done ≡ true) ↔ AllDone r.todo)
  started-IsSettled plans tools max_steps [] waits s = (
    record { todo = []; done = false; steps_run = 0 },
    refl,
    omega arith,
    refl,
    inr tt,
    (λ h. ground (arith, h), λ h. absurd h),
  )
  started-IsSettled plans tools max_steps (step ∷ todo) waits s =
      let settled_run = loop-IsSettled plans tools max_steps 0 (step ∷ todo) s in
      let run = settled_run.run in
      (
        result_of planner execute_step files request run,
        rw settled_run.returns refl,
        omega (arith, settled_run.bounded),
        omega (arith, settled_run.counted, carried_out-AllPending (step ∷ todo) waits),
        elim (Bool-cases (ltb run.steps_run max_steps)) [
          | inl left ↦ inr (settled_run.finished (ground (arith, left)))
          | inr none_left ↦ inl (ground (arith, none_left, settled_run.bounded))
        ],
        all_done-AllDone (length todo) run.todo settled_run.kept,
      )

  -- With tools that come back, and a planner that comes back with steps that all are pending,
  -- agent_loop returns after at most max_steps tool calls: as many steps of its plan are carried out
  -- as it counts, where it stops within its budget no step of the plan, the replanned ones included,
  -- is left waiting, and it reports done exactly where its plan is not empty and all its steps are
  -- done.
  pub agent_loop-IsSettled :
      Plans
      → ((step : Step) → Returns (execute_step step))
      → (max_steps : ℕ) (s : S)
      → (r : AgentResult) × ((agent_loop planner execute_step files request max_steps s).0 ≡ ok r)
        × (r.steps_run ≤ max_steps)
        × (carried_out r.todo ≡ r.steps_run)
        × ((r.steps_run ≡ max_steps) ⊎ NonePending r.todo)
        × ((r.done ≡ true) ↔ AllDone r.todo)
  unfolding agent_loop plan
  agent_loop-IsSettled plans tools max_steps s =
      let planned = plans (grounded (files s) request) s in
      let after = (planner (grounded (files s) request) s).1 in
      let first = started-IsSettled plans tools max_steps planned.0 planned.2 after in
      (first.0, rw planned.1 first.1, first.2, first.3, first.4, first.5)
