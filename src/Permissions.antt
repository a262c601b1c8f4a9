-- ===== src/Permissions.antt =====
-- harness/permissions.py: permission rules, their two configuration tiers and the REPL modes.
-- `fnmatch.fnmatch`, `json.loads` on a file and `str` of a JSON value are parameters; an exception
-- in a read is a read that gives `none`. The proofs are in the modules below.
pub mod Deciding
pub mod Loading
mod Tests
use jaros_code.Prelude.{
  String, Bool, true, false, ◌&&◌, ◌||◌, Option, none, some, List, [], ◌∷◌, ◌++◌, str_eq, any,
  filter_map, if◌then◌else◌,
}
use jaros_code.Text.{◌<>◌, is_empty, strip}
use jaros_code.Value.{Value, array, object, str, Items, nil, cons, Fields, get, to_list}

pub record PermissionRule : Type 0 where
  pub tool : Option String
  pub arg : Option String
  pub action : String
  pub source : String

-- `text in words`
abbrev pub one_of : String → List String → Bool
one_of text words = any (str_eq text) words

abbrev pub valid_actions : List String
valid_actions = "allow" ∷ "ask" ∷ "deny" ∷ []

-- `x.strip() if isinstance(x, str) and x.strip() else None`
abbrev pub non_blank : String → Option String
non_blank s = if is_empty (strip s) then none else some (strip s)

abbrev pub stripped_text : Option Value → Option String
stripped_text (some (str s)) = non_blank s
stripped_text _ = none

abbrev rule_of : Fields → String → Option Value → Option PermissionRule
rule_of fs source (some (str action)) =
    if one_of action valid_actions
    then some (record {
      tool = stripped_text (get fs "tool");
      arg = stripped_text (get fs "arg");
      action = action;
      source = source;
    })
    else none
rule_of fs source _ = none

-- `_parse_rule_item`
unfoldable pub parse_rule_item : Value → String → Option PermissionRule
parse_rule_item (object fs) source = rule_of fs source (get fs "action")
parse_rule_item _ source = none

-- The list of rule items of a configuration file: a bare list, or the `rules` of an object.
abbrev items_of : Option Value → List Value
items_of (some (array vs)) = to_list vs
items_of _ = []

abbrev pub rule_items : Option Value → List Value
rule_items (some (object fs)) = items_of (get fs "rules")
rule_items (some (array vs)) = to_list vs
rule_items _ = []

-- The files: what `path.is_file`, `read_text` and `json.loads` give together.
module _ (read_json : String → Option Value) where
  -- `_parse_permissions_file`
  pub parse_permissions_file : String → List PermissionRule
  parse_permissions_file path =
      filter_map (λ item. parse_rule_item item path) (rule_items (read_json path))

  pub load_project_permissions : String → List PermissionRule
  load_project_permissions path = parse_permissions_file path

  -- `none` where the home directory cannot be resolved
  pub load_user_permissions : Option String → List PermissionRule
  load_user_permissions none = []
  load_user_permissions (some path) = parse_permissions_file path

  -- Project rules first, then user rules.
  pub load_permission_rules : String → Option String → List PermissionRule
  load_permission_rules project_path user_path =
      load_project_permissions project_path ++ load_user_permissions user_path

-- The rules: `glob value pattern` is `fnmatch.fnmatch`, false where it raises.
module _ (glob : String → String → Bool) where
  -- `_globmatch`
  unfoldable pub globmatch : Option String → Option String → Bool
  globmatch none value = true
  globmatch (some pattern) none = is_empty pattern || str_eq pattern "*"
  globmatch (some pattern) (some value) =
      is_empty pattern || str_eq pattern "*" || glob value pattern

  -- `_rule_matches`
  unfoldable pub rule_matches : PermissionRule → Option String → Option String → Bool
  unfolding globmatch
  rule_matches rule tool_name arg = globmatch rule.tool tool_name && globmatch rule.arg arg

  -- The first rule that matches wins, and no rule allows.
  unfoldable pub decide : List PermissionRule → Option String → Option String → String
  decide [] tool_name arg = "allow"
  decide (rule ∷ rules) tool_name arg =
      if rule_matches rule tool_name arg then rule.action else decide rules tool_name arg

-- `show` is Python's `str` on the elements of a list.
module _ (show : Value → String) where
  -- `" ".join(str(v) for v in val)`
  unfoldable pub join_words : Items → String
  join_words nil = ""
  join_words (cons v nil) = show v
  join_words (cons v (cons w vs)) = show v <> " " <> join_words (cons w vs)

  -- What one key of the payload contributes, or `none` to go on to the next key.
  unfoldable pub arg_at : Option Value → Option String
  unfolding join_words
  arg_at (some (str s)) = if is_empty s then none else some s
  arg_at (some (array (cons v vs))) = some (join_words (cons v vs))
  arg_at _ = none

  -- The loop over the keys.
  unfoldable pub first_arg : Fields → List String → Option String
  unfolding arg_at
  first_arg fs [] = none
  first_arg fs (key ∷ keys) = elim (arg_at (get fs key)) [
    | some text ↦ some text
    | none ↦ first_arg fs keys
  ]

  -- `resolve_decision_arg`, on the payload of the decision
  unfoldable pub resolve_decision_arg : Value → Option String
  unfolding first_arg
  resolve_decision_arg (object fs) = first_arg fs ("path" ∷ "command" ∷ "target" ∷ "message" ∷ [])
  resolve_decision_arg _ = none

pub data Mode : Type 0 where
  plan default accept_edits : Mode

-- `mode if mode in ("plan", "default", "acceptEdits") else "default"`
unfoldable pub parse_mode : String → Mode
parse_mode text =
    if str_eq text "plan" then plan else if str_eq text "acceptEdits" then accept_edits else default

abbrev pub write_types : List String
write_types = "code.write_file" ∷ "code.apply_patch" ∷ "code.search_replace" ∷ []

-- `PLAN_MODE_WITHHELD_TYPES`
abbrev pub plan_mode_withheld_types : List String
plan_mode_withheld_types =
    "code.write_file" ∷ "code.apply_patch" ∷ "code.search_replace" ∷ "shell.exec" ∷ []

-- `ACCEPT_EDITS_AUTO_TYPES`
abbrev pub accept_edits_auto_types : List String
accept_edits_auto_types = "code.write_file" ∷ "code.apply_patch" ∷ "code.search_replace" ∷ []
