-- ===== src/Runtime/Tests.antt =====
-- A small host, tests of `Runtime.apply` of harness/coding_loop.py on it, and instances of the
-- theorems. The world counts the runs of the executor.
use jaros_code.Prelude.{
  ℕ, ◌+◌, ◌≡◌, refl, true, false, none, some, List, [], ◌∷◌, str_eq, arith, if◌then◌else◌,
}
use jaros_code.Text.{◌<>◌}
use jaros_code.Value.{num, str, object, end, entry, get, put}
use jaros_code.Exec.{runtime_error, ok, err}
use jaros_code.Permissions.{PermissionRule, Mode, decide, rule_matches, resolve_decision_arg}
use jaros_code.CheckpointRing.{record_entry}
use jaros_code.CheckpointRing.Bounds.{IsBounded}
use jaros_code.Hooks.{
  Event, pre_tool_use, HookOutcome, HooksConfig, fire_event, blocked, blocking_reason, reason_of,
  outcome_of,
}
use jaros_code.Hooks.Firing.{FirstBlocking}
use jaros_code.Runtime.Base.{Decision, contents, applied, Host, Config, State, count, increment}
use jaros_code.Runtime.{
  stamp, checkpoint_path, execute, guarded, run_command, fire, pre_hooks, post_hooks,
  plan_description, carry_out, apply,
}
use jaros_code.Runtime.Verdict.{verdict, announced, by_verdict, guarded-verdict}
use jaros_code.Runtime.Refusals.{
  SameEffects, with_mode, apply-gate, apply-blocked, apply-plan_withheld, apply-plan_other,
}
use jaros_code.Runtime.Success.{IsAuthorised, apply-IsAuthorised}
use jaros_code.Runtime.Narrowing.{unrestricted, apply-unrestricted}
use jaros_code.Runtime.Counters.{Effects, guarded-Effects}
use jaros_code.Runtime.RingGrowth.{OneMore, apply-OneMore, apply_all, apply_all-IsBounded}

abbrev host : Host ℕ
host = record {
  gate = λ d w. if str_eq d.type "net.fetch" then some "egress denied" else none;
  execute = λ d w. (applied (object (entry "exitCode" (num false 1 0) end)), w + 1);
  read_file = λ path w. contents "old";
  ask = λ type arg w. some true;
  glob = λ value pattern. str_eq value pattern;
  show = λ v. "?";
  show_exit_code = λ v. "?";
  repr = λ s. s;
  fresh_id = λ w. "0a1b2c3d";
  now = λ w. w;
}

abbrev config : List PermissionRule → HooksConfig → Config
config rules hooks = record {
  root = some "/repo";
  listens = true;
  hooks_config = hooks;
  mode = Mode.accept_edits;
  permission_rules = rules;
  has_prompt = false;
  has_ring = true;
  tool_allowlist = some ("code.write_file" ∷ "net.fetch" ∷ []);
}

abbrev no_hooks : HooksConfig
no_hooks event = []

abbrev linter : HooksConfig
linter Event.pre_tool_use = record { command = "lint"; matcher = none; source = "hooks.json" } ∷ []
linter _ = []

abbrev ask_rule : PermissionRule
ask_rule = record { tool = none; arg = none; action = "ask"; source = "" }

abbrev allow_rule : PermissionRule
allow_rule = record { tool = none; arg = none; action = "allow"; source = "" }

abbrev write : Decision
write = record {
  id = "d1";
  source = "cli";
  type = "code.write_file";
  payload = object (entry "path" (str "a.py") (entry "content" (str "new") end));
}

abbrev fetch : Decision
fetch = record { id = "d2"; source = "cli"; type = "net.fetch"; payload = object end }

abbrev start : State ℕ
start = record {
  world = 0;
  ring = record { maxlen = 2; entries = [] };
  tool_usage = [];
  wiring_usage = [];
  notices = [];
}

abbrev asked : Config
asked = config (ask_rule ∷ []) no_hooks

abbrev written : State ℕ
written = (apply host asked write start).1

-- What a run of a call computes with.
program : Unit {0}
unfolding apply carry_out guarded execute pre_hooks post_hooks stamp checkpoint_path fire_event
    run_command blocked blocking_reason outcome_of decide rule_matches resolve_decision_arg
    record_entry increment count get put verdict
program = tt

writes_once : (written.world ≡ 1) × (count "code.write_file" written.tool_usage ≡ 1)
unfolding program
writes_once = (refl, refl)

write_returns :
    apply host asked write start ≡ (ok (object (entry "exitCode" (num false 1 0) end)), written)
unfolding program
write_returns = refl

-- A prompt is missing and acceptEdits does not cover this type: a safe refusal.
ask_without_prompt :
    (apply host
      (record asked { tool_allowlist = none })
      (record fetch { type = "web.open" })
      start).0
    ≡ err (
        runtime_error
          "permission ask for web.open has no interactive prompt available -- denying by safe default")
unfolding program
ask_without_prompt = refl

-- An `allow` rule for everything does not pass the gate.
apply-gate_example :
    ((apply host (config (allow_rule ∷ []) no_hooks) fetch start).0
      ≡ err (runtime_error ("gate rejected " <> "net.fetch" <> ": " <> "egress denied")))
    × SameEffects start (apply host (config (allow_rule ∷ []) no_hooks) fetch start).1
unfolding program
apply-gate_example =
    apply-gate host (config (allow_rule ∷ []) no_hooks) fetch start start "egress denied" refl refl
      refl

apply-blocked_example :
    (o : HookOutcome) × FirstBlocking
      (fire host (config [] linter) (stamp host (some "/repo") write) pre_tool_use start).0
      o
    × ((apply host (config [] linter) write start).0
        ≡ err (
            runtime_error (
              "PreToolUse hook blocked "
              <> "code.write_file"
              <> ": "
              <> reason_of host.repr host.show_exit_code o)))
    × SameEffects
        (fire host (config [] linter) (stamp host (some "/repo") write) pre_tool_use start).1
        (apply host (config [] linter) write start).1
unfolding program
apply-blocked_example = apply-blocked host (config [] linter) write start refl refl

apply-plan_withheld_example :
    ((apply host (with_mode Mode.plan asked) write start).0
      ≡ ok (plan_description host (stamp host (some "/repo") write)))
    × SameEffects start (apply host (with_mode Mode.plan asked) write start).1
apply-plan_withheld_example = apply-plan_withheld host asked write start refl

apply-plan_other_example :
    apply host (with_mode Mode.plan asked) fetch start
    ≡ apply host (with_mode Mode.default asked) fetch start
apply-plan_other_example = apply-plan_other host asked fetch start refl

apply-IsAuthorised_example :
    IsAuthorised host asked
      (stamp host (some "/repo") write)
      (pre_hooks host asked (stamp host (some "/repo") write) start).1.world
unfolding program
apply-IsAuthorised_example =
    apply-IsAuthorised host asked write start written
      (object (entry "exitCode" (num false 1 0) end)) refl write_returns

apply-unrestricted_example :
    apply host (unrestricted asked) write start
    ≡ (ok (object (entry "exitCode" (num false 1 0) end)), written)
apply-unrestricted_example =
    apply-unrestricted host asked write start written
      (object (entry "exitCode" (num false 1 0) end)) write_returns

guarded-verdict_example :
    guarded host asked fetch start
    ≡ by_verdict host asked fetch (verdict host asked fetch 0) (announced host asked fetch start)
guarded-verdict_example = guarded-verdict host asked fetch start

guarded-Effects_example :
    Effects host asked write
      (checkpoint_path host asked write)
      start
      (guarded host asked write start).0
      (guarded host asked write start).1
guarded-Effects_example = guarded-Effects host asked write start

apply-OneMore_example : OneMore start.ring (apply host (config [] linter) write start).1.ring
apply-OneMore_example = apply-OneMore host (config [] linter) write start

apply_all-IsBounded_example :
    IsBounded (apply_all host asked (write ∷ write ∷ write ∷ []) start).ring
apply_all-IsBounded_example =
    apply_all-IsBounded host asked (write ∷ write ∷ write ∷ []) start (omega arith)
