-- ===== src/Solving/Tests.antt =====
-- The loops on small runs. The state of the agent loop is the names of the files that exist; that of
-- the repair is the number of attempts so far.
use jaros_code.Prelude.{
  ℕ, ◌+◌, ◌≤◌, String, ◌≡◌, refl, Bool, true, false, some, List, [], ◌∷◌, ◌⊎◌, ◌↔◌, length, ltb,
  str_eq, if◌then◌else◌, Bool-cases, inl, inr,
}
use jaros_code.Text.{◌<>◌}
use jaros_code.Exec.{Exec, ok}
use jaros_code.Permissions.{one_of}
use jaros_code.Solving.AgentLoop.{
  pending, done, failed, Step, AgentResult, next_pending, plan, replanned, round, loop, all_done,
  agent_loop,
}
use jaros_code.Solving.Settling.{
  AllDone, Returns, Plans, NonePending, carried_out, agent_loop-IsSettled,
}
use jaros_code.Solving.Failing.{OnOk, Fails, loop-NotDone}
use jaros_code.Solving.Repair.{Verdict, repair, repair_solve, IsRepaired, repair_solve-IsRepaired}

abbrev waiting : String → String → Step
waiting action arg = record { action = action; arg = arg; status = pending; observation = "" }

-- The first plan reads a file that does not exist, and the second one a file that does.
abbrev planner : String → Exec (List String) (List Step)
planner request files =
    if str_eq request "Files in the repo: m.py\n\ngo"
    then (ok (waiting "read" "gone.py" ∷ []), files)
    else (ok (waiting "read" "m.py" ∷ []), files)

abbrev execute_step : Step → Exec (List String) (Bool × String)
execute_step step files = (ok (one_of step.arg files, "read " <> step.arg), files)

abbrev files_of : List String → List String
files_of files = files

planner-Plans : Plans planner execute_step files_of "go"
planner-Plans text s = elim (Bool-cases (str_eq text "Files in the repo: m.py\n\ngo")) [
  | inl first ↦ (waiting "read" "gone.py" ∷ [], rw first refl, (refl, tt))
  | inr later ↦ (waiting "read" "m.py" ∷ [], rw later refl, (refl, tt))
]

execute_step-Returns : (step : Step) → Returns (execute_step step)
execute_step-Returns step s = ((one_of step.arg s, "read " <> step.arg), refl)

agent_loop-IsSettled_example :
    (r : AgentResult) × ((agent_loop planner execute_step files_of "go" 8 ("m.py" ∷ [])).0 ≡ ok r)
    × (r.steps_run ≤ 8)
    × (carried_out r.todo ≡ r.steps_run)
    × ((r.steps_run ≡ 8) ⊎ NonePending r.todo)
    × ((r.done ≡ true) ↔ AllDone r.todo)
agent_loop-IsSettled_example =
    agent_loop-IsSettled planner execute_step files_of "go" planner-Plans execute_step-Returns 8
      ("m.py" ∷ [])

-- The replanned step works, and the run is still not done.
recovers :
    (agent_loop planner execute_step files_of "go" 8 ("m.py" ∷ [])).0
    ≡ ok record {
      todo =
          record { action = "read"; arg = "gone.py"; status = failed; observation = "read gone.py" }
          ∷ record { action = "read"; arg = "m.py"; status = done; observation = "read m.py" }
          ∷ [];
      done = false;
      steps_run = 2;
    }
unfolding agent_loop plan loop round next_pending replanned
recovers = refl

abbrev gone_first : List Step
gone_first = waiting "read" "gone.py" ∷ waiting "read" "m.py" ∷ []

gone_first-Fails : Fails planner execute_step files_of "go" gone_first ("m.py" ∷ [])
unfolding next_pending
gone_first-Fails = record {
  before = [];
  step = waiting "read" "gone.py";
  after = waiting "read" "m.py" ∷ [];
  observation = "read gone.py";
  found = refl;
  fails = refl;
}

loop-NotDone_example :
    OnOk
      (λ run. all_done run.todo ≡ false)
      (loop planner execute_step files_of "go" 3 1 gone_first ("m.py" ∷ [])).0
loop-NotDone_example =
    loop-NotDone planner execute_step files_of "go" 2 1 gone_first ("m.py" ∷ [])
      (inr gone_first-Fails)

-- The model's third attempt passes.
abbrev gen_fn : String → ℕ → String × ℕ
gen_fn context n = (if ltb n 2 then "wrong" else "right", n + 1)

abbrev test_fn : String → ℕ → Verdict × ℕ
test_fn code n = (record { passed = str_eq code "right"; failure_text = some "AssertionError" }, n)

third_passes : (repair_solve gen_fn test_fn "" 2 0).0 ≡ record {
  solved = true;
  code = "right";
  retries = 2;
  attempts = "wrong" ∷ "wrong" ∷ "right" ∷ [];
}
unfolding repair_solve repair
third_passes = refl

repair_solve-IsRepaired_example :
    let r = (repair_solve gen_fn test_fn "" 2 0).0 in
    IsRepaired gen_fn test_fn "" 3 r × (r.retries + 1 ≡ length r.attempts)
repair_solve-IsRepaired_example = repair_solve-IsRepaired gen_fn test_fn "" 2 0
