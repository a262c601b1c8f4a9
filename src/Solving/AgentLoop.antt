-- ===== src/Solving/AgentLoop.antt =====
-- harness/agent_loop.py: the loop that plans, acts, observes and replans. The planner and the tools
-- act on a state and may raise; `files` are the files of the repository that a request is grounded
-- in. What is printed is left out.
use jaros_code.Prelude.{
  ℕ, zero, suc, ◌+◌, String, Bool, true, false, ◌&&◌, Option, none, some, List, [], ◌∷◌, ◌++◌,
}
use jaros_code.Text.{◌<>◌}
use jaros_code.Exec.{Exec, pure, ◌>>=◌}

pub data Status : Type 0 where
  pending done failed : Status

pub record Step : Type 0 where
  pub action : String
  pub arg : String
  pub status : Status
  pub observation : String

-- What the loop leaves, and what `agent_loop` returns.
pub record Run : Type 0 where
  pub todo : List Step
  pub steps_run : ℕ

pub record AgentResult : Type 0 where
  pub todo : List Step
  pub done : Bool
  pub steps_run : ℕ

abbrev pub is_done : Status → Bool
is_done pending = false
is_done done = true
is_done failed = false

abbrev pub all_done : List Step → Bool
all_done [] = true
all_done (step ∷ todo) = is_done step.status && all_done todo

abbrev pub put_before :
    Step → Option (List Step × (Step × List Step)) → Option (List Step × (Step × List Step))
put_before step none = none
put_before step (some (before, found)) = some (step ∷ before, found)

abbrev pub split_at :
    Step
    → List Step
    → Status
    → Option (List Step × (Step × List Step))
    → Option (List Step × (Step × List Step))
split_at step todo pending rest = some ([], (step, todo))
split_at step todo done rest = put_before step rest
split_at step todo failed rest = put_before step rest

-- The first pending step, with the steps before and after it.
unfoldable pub next_pending : List Step → Option (List Step × (Step × List Step))
next_pending [] = none
next_pending (step ∷ todo) = split_at step todo step.status (next_pending todo)

abbrev pub status_of : Bool → Status
status_of true = done
status_of false = failed

abbrev pub settled : Step → Bool × String → Step
settled step (is_ok, observation) = record step {
  status = status_of is_ok;
  observation = observation;
}

abbrev join : String → List String → String
join separator [] = ""
join separator (s ∷ []) = s
join separator (s ∷ t ∷ ts) = s <> separator <> join separator (t ∷ ts)

abbrev observed : Step → Status → List String → List String
observed step pending lines = lines
observed step done lines = (step.action <> " " <> step.arg <> ": " <> step.observation) ∷ lines
observed step failed lines = (step.action <> " " <> step.arg <> ": " <> step.observation) ∷ lines

abbrev observations : List Step → List String
observations [] = []
observations (step ∷ todo) = observed step step.status (observations todo)

-- The request for the rest of the plan
abbrev pub replan_request : String → List Step → String
replan_request request todo =
    request
    <> "\nProgress: "
    <> join "; " (observations todo)
    <> "\nThe last step failed; plan the remaining steps to finish the request."

-- `_ground`
abbrev pub grounded : List String → String → String
grounded [] request = request
grounded (file ∷ files) request =
    "Files in the repo: " <> join ", " (file ∷ files) <> "\n\n" <> request

module _ {S : Type 0} (planner : String → Exec S (List Step))
    (execute_step : Step → Exec S (Bool × String)) (files : S → List String)
    (request : String) where
  unfoldable pub plan : String → Exec S (List Step)
  plan text s = planner (grounded (files s) text) s

  -- The rest of the plan after a step: none is asked for where the step worked, or the budget is
  -- used up.
  unfoldable pub replanned : ℕ → List Step → Bool → Exec S (List Step)
  replanned zero todo is_ok = pure todo
  replanned (suc left) todo true = pure todo
  replanned (suc left) todo false =
      plan (replan_request request todo) >>= λ more. pure (todo ++ more)

  -- One round, `later` being the rounds after it.
  unfoldable pub round :
      (left steps_run : ℕ)
      → List Step
      → (List Step → Exec S Run)
      → Option (List Step × (Step × List Step))
      → Exec S Run
  round left steps_run todo later none = pure (record { todo = todo; steps_run = steps_run })
  round left steps_run todo later (some (before, (step, after))) = execute_step step >>= λ result.
      replanned left (before ++ settled step result ∷ after) result.0 >>= later

  -- The loop with the number of rounds that are left; `max_steps` bounds them.
  unfoldable pub loop : (left steps_run : ℕ) → List Step → Exec S Run
  loop zero steps_run todo = pure (record { todo = todo; steps_run = steps_run })
  loop (suc left) steps_run todo =
      round left steps_run todo (λ next. loop left (steps_run + 1) next) (next_pending todo)

  abbrev pub result_of : Run → AgentResult
  result_of run = record { todo = run.todo; done = all_done run.todo; steps_run = run.steps_run }

  abbrev pub started : ℕ → List Step → Exec S AgentResult
  started max_steps [] = pure (record { todo = []; done = false; steps_run = 0 })
  started max_steps (step ∷ todo) = loop max_steps 0 (step ∷ todo) >>= λ run. pure (result_of run)

  unfoldable pub agent_loop : (max_steps : ℕ) → Exec S AgentResult
  agent_loop max_steps = plan request >>= started max_steps
