-- ===== src/Hooks/Tests.antt =====
-- Tests of harness/hooks.py and instances of its theorems.
use jaros_code.Prelude.{
  ℕ, ◌+◌, String, ◌≡◌, refl, Bool, true, false, Option, none, some, List, [], ◌∷◌, ◌++◌, str_eq,
  if◌then◌else◌,
}
use jaros_code.Value.{Value, num, object, end, entry, get}
use jaros_code.Exec.{Exec, ok, err, other_error}
use jaros_code.Hooks.{
  pre_tool_use, HookDef, HookOutcome, outcome_of, fire_event, blocked, blocking_reason, reason_of,
}
use jaros_code.Hooks.Firing.{FirstBlocking, blocking_reason-FirstBlocking, fire_event-append}

abbrev hook : String → Option String → HookDef
hook command matcher = record { command = command; matcher = matcher; source = "hooks.json" }

abbrev plain_glob : String → String → Bool
plain_glob value pattern = str_eq value pattern

-- A runner that counts its runs, raises on "crash" and fails on "lint".
abbrev runner : String → Option String → Exec ℕ Value
runner command cwd n =
    if str_eq command "crash"
    then (err (other_error "crash"), n + 1)
    else if str_eq command "lint"
    then (ok (object (entry "exitCode" (num false 2 0) end)), n + 1)
    else (ok (object (entry "exitCode" (num false 0 0) end)), n + 1)

abbrev hooks : List HookDef
hooks =
    hook "crash" none
    ∷ hook "skipped" (some "fs.read")
    ∷ hook "ok" (some "*")
    ∷ hook "lint" none
    ∷ []

abbrev outcomes : List HookOutcome
outcomes = (fire_event plain_glob runner pre_tool_use hooks (some "shell.exec") none 0).0

three_runs : (fire_event plain_glob runner pre_tool_use hooks (some "shell.exec") none 0).1 ≡ 3
unfolding fire_event
three_runs = refl

lint_blocks : blocked outcomes ≡ true
unfolding fire_event blocked outcome_of get
lint_blocks = refl

blocking_reason-FirstBlocking_example :
    (o : HookOutcome) × FirstBlocking outcomes o
    × (blocking_reason (λ s. s) (λ v. "2") outcomes ≡ some (reason_of (λ s. s) (λ v. "2") o))
blocking_reason-FirstBlocking_example =
    blocking_reason-FirstBlocking (λ s. s) (λ v. "2") outcomes lint_blocks

fire_event-append_example :
    fire_event plain_glob runner pre_tool_use (hooks ++ hooks) (some "shell.exec") none 0 ≡ (
      let a = fire_event plain_glob runner pre_tool_use hooks (some "shell.exec") none 0 in
      let b = fire_event plain_glob runner pre_tool_use hooks (some "shell.exec") none a.1 in
      (a.0 ++ b.0, b.1))
fire_event-append_example =
    fire_event-append plain_glob runner pre_tool_use hooks hooks (some "shell.exec") none 0
