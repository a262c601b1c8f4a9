-- ===== src/Hooks.antt =====
-- harness/hooks.py: the user's lifecycle hooks, their configuration tiers, and the firing of the
-- hooks of one event. The command runner is a parameter of `fire_event`, as it is in the source;
-- harness/coding_loop.py's own runner is in Runtime.
pub mod Firing
mod Tests
use jaros_code.Prelude.{
  ℕ, String, Bool, true, false, not, ◌&&◌, ◌||◌, Option, none, some, List, [], ◌∷◌, ◌++◌, ◌==◌,
  str_eq, filter_map, if◌then◌else◌,
}
use jaros_code.Text.{◌<>◌, is_empty, strip}
use jaros_code.Value.{Value, null, bool, num, str, array, object, Fields, get, to_list, truthy}
use jaros_code.Exec.{Exec, Result, ok, err, pure, attempt, ◌>>=◌}

pub data Event : Type 0 where
  pre_tool_use post_tool_use session_start stop : Event

pub record HookDef : Type 0 where
  pub command : String
  pub matcher : Option String
  pub source : String

pub record HookOutcome : Type 0 where
  pub event : Event
  pub command : String
  pub matcher : Option String
  pub exit_code : Option Value
  pub stdout : Value
  pub stderr : Value
  pub blocked : Bool

abbrev matcher_text : Option Value → Option String
matcher_text (some (str s)) = if is_empty (strip s) then none else some (strip s)
matcher_text _ = none

abbrev hook_of : Fields → String → Option Value → Option HookDef
hook_of fs source (some (str command)) =
    if is_empty (strip command)
    then none
    else some
        (record { command = command; matcher = matcher_text (get fs "matcher"); source = source })
hook_of fs source _ = none

-- `_parse_hook_item`
unfoldable pub parse_hook_item : Value → String → Option HookDef
parse_hook_item (object fs) source = hook_of fs source (get fs "command")
parse_hook_item _ source = none

unfoldable pub event_name : Event → String
event_name pre_tool_use = "PreToolUse"
event_name post_tool_use = "PostToolUse"
event_name session_start = "SessionStart"
event_name stop = "Stop"

-- `{event: [HookDef, ...]}`, total: an event without hooks has the empty list.
abbrev pub HooksConfig : Type 0
HooksConfig = Event → List HookDef

abbrev hook_items : Option Value → List Value
hook_items (some (array vs)) = to_list vs
hook_items _ = []

abbrev event_items : Option Value → String → List Value
event_items (some (object fs)) name = hook_items (get fs name)
event_items _ name = []

module _ (read_json : String → Option Value) where
  -- `_parse_hooks_file`
  unfoldable pub parse_hooks_file : String → HooksConfig
  unfolding event_name
  parse_hooks_file path event =
      filter_map (λ item. parse_hook_item item path)
        (event_items (read_json path) (event_name event))

  -- `load_user_hooks`, with `none` where the home directory cannot be resolved
  abbrev load_user_hooks : Option String → HooksConfig
  load_user_hooks none event = []
  load_user_hooks (some path) event = parse_hooks_file path event

  -- `load_hooks`: both tiers fire, the project's hooks first.
  unfoldable pub load_hooks : String → Option String → HooksConfig
  load_hooks project_path user_path event =
      parse_hooks_file project_path event ++ load_user_hooks user_path event

abbrev is_tool_scoped : Event → Bool
is_tool_scoped pre_tool_use = true
is_tool_scoped post_tool_use = true
is_tool_scoped _ = false

-- `value == 0`
abbrev pub equals_zero : Value → Bool
equals_zero (num negative digits scale) = digits == 0
equals_zero (bool b) = not b
equals_zero _ = false

-- `result.get("exitCode")` where `result` is made a dict first
unfoldable pub exit_code_of : Value → Option Value
exit_code_of (object fs) = elim (get fs "exitCode") [
  | none ↦ none
  | some v ↦ elim v [ null ↦ none | w ↦ some w ]
]
exit_code_of _ = none

-- `result.get(stream) or ""`
abbrev text_or_empty : Option Value → Value
text_or_empty none = str ""
text_or_empty (some v) = if truthy v then v else str ""

unfoldable pub stream_of : String → Value → Value
unfolding truthy
stream_of stream (object fs) = text_or_empty (get fs stream)
stream_of stream _ = str ""

-- `exit_code is not None and exit_code != 0`
abbrev pub is_failure : Option Value → Bool
is_failure none = false
is_failure (some v) = not (equals_zero v)

-- `event == "PreToolUse"`
abbrev pub is_pre : Event → Bool
is_pre pre_tool_use = true
is_pre _ = false

unfoldable pub outcome_of : Event → HookDef → Value → HookOutcome
unfolding exit_code_of stream_of
outcome_of event hook result = record {
  event = event;
  command = hook.command;
  matcher = hook.matcher;
  exit_code = exit_code_of result;
  stdout = stream_of "stdout" result;
  stderr = stream_of "stderr" result;
  blocked = is_pre event && is_failure (exit_code_of result);
}

-- `_matches`; `glob value pattern` is `fnmatch.fnmatch`, false where it raises
unfoldable pub matches : (String → String → Bool) → Option String → Option String → Bool
matches glob none tool_name = true
matches glob (some matcher) none = is_empty matcher || str_eq matcher "*"
matches glob (some matcher) (some tool_name) =
    is_empty matcher || str_eq matcher "*" || (not (is_empty tool_name) && glob tool_name matcher)

-- The hooks of the event that apply to the tool.
unfoldable pub applies : (String → String → Bool) → Event → HookDef → Option String → Bool
unfolding matches
applies glob event hook tool_name =
    not (is_tool_scoped event) || matches glob hook.matcher tool_name

abbrev cons_outcome : Event → HookDef → Result Value → List HookOutcome → List HookOutcome
cons_outcome event hook (ok result) rest = outcome_of event hook result ∷ rest
cons_outcome event hook (err e) rest = rest

module _ {S : Type 0} (glob : String → String → Bool)
    (runner : String → Option String → Exec S Value) where
  -- `fire_event`: runs the hooks in order; one that raises contributes nothing, and firing never
  -- raises.
  unfoldable pub fire_event :
      Event → List HookDef → Option String → Option String → S → List HookOutcome × S
  unfolding applies
  fire_event event [] tool_name cwd s = ([], s)
  fire_event event (hook ∷ hooks) tool_name cwd s = elim (applies glob event hook tool_name) [
    | false ↦ fire_event event hooks tool_name cwd s
    | true ↦
        let ran = runner hook.command cwd s in
        let rest = fire_event event hooks tool_name cwd ran.1 in
        (cons_outcome event hook ran.0 rest.0, rest.1)
  ]

-- `blocked`
unfoldable pub blocked : List HookOutcome → Bool
blocked [] = false
blocked (outcome ∷ outcomes) = outcome.blocked || blocked outcomes

-- `blocking_reason`; `repr` and `show` are Python's `repr` of a string and `str` of an exit code
module _ (repr : String → String) (show : Option Value → String) where
  abbrev matcher_note : Option String → String
  matcher_note none = ""
  matcher_note (some matcher) = if is_empty matcher then "" else " (matcher=" <> repr matcher <> ")"

  abbrev pub reason_of : HookOutcome → String
  reason_of o =
      "PreToolUse hook "
      <> repr o.command
      <> " exited "
      <> show o.exit_code
      <> " -- tool call refused"
      <> matcher_note o.matcher

  unfoldable pub blocking_reason : List HookOutcome → Option String
  blocking_reason [] = none
  blocking_reason (o ∷ os) = if o.blocked then some (reason_of o) else blocking_reason os
