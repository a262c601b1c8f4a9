-- ===== src/Runtime.antt =====
-- `Runtime` of harness/coding_loop.py: the one path of a decision from the hooks and the gate to
-- the executor. The gate, the executor and the host are parameters (`Host`). The counters
-- `_TOOL_USAGE` and `_WIRING_USAGE`, the checkpoint ring, the events handed to `on_event` and the
-- outside world are the state; the attributes that `apply` only reads are `Config`.
pub mod Base
pub mod Verdict
pub mod Refusals
pub mod Success
pub mod Narrowing
pub mod Counters
pub mod RingGrowth
pub mod World
mod Tests
use jaros_code.Prelude.{
  ℕ, String, Bool, true, false, not, ◌&&◌, ◌||◌, Option, none, some, List, [], ◌∷◌, ◌++◌, str_eq,
  if◌then◌else◌,
}
use jaros_code.Text.{◌<>◌, is_empty}
use jaros_code.Value.{Value, null, num, str, object, Fields, end, entry, get, put}
use jaros_code.Exec.{
  Error, runtime_error, other_error, Exec, Result, ok, err, pure, raise, gets, modify, attempt,
  ◌>>=◌, ◌>>◌,
}
use jaros_code.Permissions.{
  PermissionRule, Mode, plan, accept_edits, one_of, write_types, plan_mode_withheld_types,
  accept_edits_auto_types, decide, resolve_decision_arg,
}
use jaros_code.CheckpointRing.{CheckpointEntry, CheckpointRing, record_entry}
use jaros_code.Hooks.{
  Event, HookOutcome, HooksConfig, pre_tool_use, post_tool_use, fire_event, blocking_reason,
}
use jaros_code.Runtime.Base.{
  Decision, FileRead, absent, contents, unreadable, Outcome, applied, refused, raised, Host, Config,
  Notice, planned, call, failed, result, State, increment, emit,
}

module _ {W : Type 0} (host : Host W) where
  -- The stamp of the project root on a write decision whose payload has none.
  abbrev stamped_payload : Option Value → String → Fields → Value
  stamped_payload none root fs = object (put fs "root" (str root))
  stamped_payload (some v) root fs = object fs

  abbrev stamp_root : String → Value → Value
  stamp_root root (object fs) = stamped_payload (get fs "root") root fs
  stamp_root root v = v

  unfoldable pub stamp : Option String → Decision → Decision
  stamp none d = d
  stamp (some root) d =
      if not (is_empty root) && one_of d.type write_types
      then record d { payload = stamp_root root d.payload }
      else d

  -- Emits the error and raises `RuntimeError`.
  abbrev pub refuse {ℓ} : {A : Type ℓ} → Config → Decision → String → String → Exec (State W) A
  refuse cfg d reason message = do emit cfg (failed d.type reason); raise (runtime_error message)

  abbrev pub check_gate : Config → Decision → Exec (State W) (Unit {0})
  check_gate cfg d s = elim (host.gate d s.world) [
    | none ↦ (ok tt, s)
    | some reason ↦ refuse cfg d reason ("gate rejected " <> d.type <> ": " <> reason) s
  ]

  abbrev pub allowlist_reason : Decision → String
  allowlist_reason d =
      "subagent tool-allowlist denied " <> d.type <> " (not in this subagent's allowed tool set)"

  abbrev allowed_by : Option (List String) → String → Bool
  allowed_by none type = true
  allowed_by (some types) type = one_of type types

  abbrev pub check_allowlist : Config → Decision → Exec (State W) (Unit {0})
  check_allowlist cfg d =
      if allowed_by cfg.tool_allowlist d.type
      then pure tt
      else refuse cfg d (allowlist_reason d) (allowlist_reason d)

  abbrev arg_note : Option String → String
  arg_note none = ""
  arg_note (some arg) = if is_empty arg then "" else " (" <> arg <> ")"

  abbrev denied : Config → Decision → String → Exec (State W) (Unit {0})
  denied cfg d reason = refuse cfg d reason reason

  -- What the prompt says, where there is one; an exception in it counts as no.
  abbrev approval : Option Bool → Bool
  approval none = false
  approval (some answer) = answer

  abbrev pub check_ask : Config → Decision → Option String → Exec (State W) (Unit {0})
  check_ask cfg d arg s =
      if cfg.has_prompt
      then if approval (host.ask d.type arg s.world)
        then (ok tt, s)
        else denied cfg d ("permission ask declined for " <> d.type <> arg_note arg) s
      else denied cfg d
          ("permission ask for " <> d.type
            <> " has no interactive prompt available -- denying by safe default")
          s

  abbrev is_accept_edits : Mode → Bool
  is_accept_edits accept_edits = true
  is_accept_edits _ = false

  abbrev pub check_action : Config → Decision → Option String → String → Exec (State W) (Unit {0})
  check_action cfg d arg action =
      if str_eq action "deny"
      then denied cfg d ("permission rule denied " <> d.type <> arg_note arg)
      else if str_eq action "ask"
      then if is_accept_edits cfg.mode && one_of d.type accept_edits_auto_types
        then pure tt
        else check_ask cfg d arg
      else pure tt

  -- No rules at all decide as the empty list does: "allow".
  abbrev pub check_permissions : Config → Decision → Exec (State W) (Unit {0})
  check_permissions cfg d =
      let arg = resolve_decision_arg host.show d.payload in
      check_action cfg d arg (decide host.glob cfg.permission_rules (some d.type) arg)

  -- What is captured of the file before the edit: `(existed, before_content)`.
  abbrev pub before_edit : FileRead → Bool × Option String
  before_edit absent = (false, none)
  before_edit (contents text) = (true, some text)
  before_edit unreadable = (false, none)

  abbrev path_text : Option Value → Option String
  path_text (some (str path)) = if is_empty path then none else some path
  path_text _ = none

  abbrev path_of : Value → Option String
  path_of (object fs) = path_text (get fs "path")
  path_of _ = none

  -- The path to checkpoint, if this runtime has a ring and the decision edits a file.
  unfoldable pub checkpoint_path : Config → Decision → Option String
  checkpoint_path cfg d =
      if cfg.has_ring && one_of d.type write_types then path_of d.payload else none

  -- `self._checkpoint_ring.record(…)`
  abbrev keep_checkpoint :
      Decision → Option String → Bool × Option String → Exec (State W) (Unit {0})
  keep_checkpoint d none before s = (ok tt, s)
  keep_checkpoint d (some path) before s = (
    ok tt,
    record s {
      ring =
          (record_entry s.ring (host.fresh_id s.world) d.type path before.0 before.1 d.source
            (host.now s.world)).1;
    },
  )

  abbrev captured : Option String → W → Bool × Option String
  captured none w = (false, none)
  captured (some path) w = before_edit (host.read_file path w)

  abbrev count_usage : Decision → Exec (State W) (Unit {0})
  count_usage d = modify λ s. record s {
    tool_usage = increment d.type s.tool_usage;
    wiring_usage = increment (d.source <> " -> " <> d.type) s.wiring_usage;
  }

  abbrev settle :
      Config → Decision → Option String → Bool × Option String → Outcome → Exec (State W) Value
  settle cfg d path before (applied output) = do
    count_usage d
    keep_checkpoint d path before
    emit cfg (result d.type output)
    pure output
  settle cfg d path before (refused reason) =
      refuse cfg d reason ("executor refused " <> d.type <> ": " <> reason)
  settle cfg d path before (raised message) = raise (other_error message)

  -- `executor.apply`, with the capture before it and the bookkeeping after it.
  unfoldable pub execute : Config → Decision → Exec (State W) Value
  unfolding checkpoint_path
  execute cfg d s =
      let path = checkpoint_path cfg d in
      let before = captured path s.world in
      let ran = host.execute d s.world in
      settle cfg d path before ran.0 (record s { world = ran.1 })

  -- A decision past plan mode and the hooks: gate, allowlist, permission rules, executor.
  unfoldable pub guarded : Config → Decision → Exec (State W) Value
  unfolding execute
  guarded cfg d = do
    emit cfg (call d.type d.payload d.source)
    check_gate cfg d
    check_allowlist cfg d
    check_permissions cfg d
    execute cfg d

  -- The `Runtime(root=cwd)` that runs a hook's command: no hooks, no rules, no ring.
  abbrev pub hook_config : Option String → Config
  hook_config cwd = record {
    root = cwd;
    listens = false;
    hooks_config = λ event. [];
    mode = Mode.default;
    permission_rules = [];
    has_prompt = false;
    has_ring = false;
    tool_allowlist = none;
  }

  abbrev text_or_null : Option String → Value
  text_or_null none = null
  text_or_null (some s) = str s

  abbrev pub hook_decision : String → Option String → W → Decision
  hook_decision command cwd w = record {
    id = "hook-" <> host.fresh_id w;
    source = "hooks";
    type = "shell.exec";
    payload = object (
        entry "command" (str command)
          (entry "cwd" (text_or_null cwd) (entry "timeout_s" (num false 30 0) end)));
  }

  abbrev run_result : Value → String → Value
  run_result code stderr =
      object (entry "exitCode" code (entry "stdout" (str "") (entry "stderr" (str stderr) end)))

  -- `_default_run_command` of harness/hooks.py: it never raises, and an error is exit code 1.
  abbrev reported : Result Value → Value
  reported (ok (object fs)) = object fs
  reported (ok v) = run_result null ""
  reported (err (runtime_error message)) = run_result (num false 1 0) message
  reported (err (other_error message)) =
      run_result (num false 1 0) ("hook failed to run: " <> message)

  unfoldable pub run_command : String → Option String → Exec (State W) Value
  unfolding guarded stamp
  run_command command cwd s =
      let ran = guarded (hook_config cwd) (stamp cwd (hook_decision command cwd s.world)) s in
      (ok (reported ran.0), ran.1)

  abbrev pub fire : Config → Decision → Event → State W → List HookOutcome × State W
  fire cfg d event =
      fire_event host.glob run_command event (cfg.hooks_config event) (some d.type) cfg.root

  abbrev unless_blocked : Config → Decision → Option String → Exec (State W) (Unit {0})
  unless_blocked cfg d none = pure tt
  unless_blocked cfg d (some reason) =
      refuse cfg d reason ("PreToolUse hook blocked " <> d.type <> ": " <> reason)

  unfoldable pub pre_hooks : Config → Decision → Exec (State W) (Unit {0})
  pre_hooks cfg d s =
      let fired = fire cfg d pre_tool_use s in
      unless_blocked cfg d (blocking_reason host.repr host.show_exit_code fired.0) fired.1

  unfoldable pub post_hooks : Config → Decision → Exec (State W) (Unit {0})
  post_hooks cfg d s = (ok tt, (fire cfg d post_tool_use s).1)

  abbrev is_plan : Mode → Bool
  is_plan plan = true
  is_plan _ = false

  abbrev pub is_withheld : Config → Decision → Bool
  is_withheld cfg d = is_plan cfg.mode && one_of d.type plan_mode_withheld_types

  abbrev pub plan_description : Decision → Value
  plan_description d = object (
      entry "planned" (Value.bool true) (
        entry "type" (str d.type) (
          entry "payload" d.payload
            (entry "note" (str "plan mode: no side effect performed -- description only") end))))

  -- Everything after the stamp and outside plan mode.
  unfoldable pub carry_out : Config → Decision → Exec (State W) Value
  unfolding pre_hooks guarded post_hooks
  carry_out cfg d = do pre_hooks cfg d; output ← guarded cfg d; post_hooks cfg d; pure output

  abbrev pub describe : Config → Decision → Exec (State W) Value
  describe cfg d = do emit cfg (planned d.type d.payload); pure (plan_description d)

  -- `Runtime.apply`
  unfoldable pub apply : Config → Decision → Exec (State W) Value
  unfolding stamp carry_out
  apply cfg decision =
      let d = stamp cfg.root decision in
      if is_withheld cfg d then describe cfg d else carry_out cfg d
