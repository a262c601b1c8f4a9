-- ===== src/Permissions/Tests.antt =====
-- Tests of harness/permissions.py and instances of its theorems.
use jaros_code.Prelude.{
  String, ◌≡◌, refl, Bool, true, false, Option, none, some, [], ◌∷◌, any, All, filter_map, str_eq,
  if◌then◌else◌,
}
use jaros_code.Value.{Value, num, str, array, object, nil, cons, end, entry, get, to_list}
use jaros_code.Permissions.{
  PermissionRule, one_of, valid_actions, parse_rule_item, parse_permissions_file,
  load_project_permissions, load_user_permissions, load_permission_rules, rule_matches, decide,
  resolve_decision_arg,
}
use jaros_code.Permissions.Deciding.{Decides, decide-Decides}
use jaros_code.Permissions.Loading.{
  IsWellFormed, parse_permissions_file-IsWellFormed, decide-load_known, decide-load_tiers,
  parse_permissions_file-skips,
}

abbrev deny_shell : Value
deny_shell = object (entry "tool" (str " shell.exec ") (entry "action" (str "deny") end))

abbrev ask_all : Value
ask_all = object (entry "tool" (str "  ") (entry "action" (str "ask") end))

abbrev malformed : Value
malformed = object (entry "action" (str "forbid") end)

-- The project's file is a bare list, the user's an object with `rules`.
abbrev files : String → Option Value
files path =
    if str_eq path "project"
    then some (array (cons deny_shell (cons malformed nil)))
    else some (object (entry "rules" (array (cons ask_all nil)) end))

abbrev plain_glob : String → String → Bool
plain_glob value pattern = str_eq value pattern

abbrev rule : Option String → String → PermissionRule
rule tool action = record { tool = tool; arg = none; action = action; source = "project" }

parsed_file : parse_permissions_file files "project" ≡ rule (some "shell.exec") "deny" ∷ []
unfolding parse_permissions_file parse_rule_item get to_list jaros_code.Text.strip
parsed_file = refl

decide_both_tiers :
    decide plain_glob (load_permission_rules files "project" (some "user")) (some "fs.read") none
    ≡ "ask"
unfolding decide rule_matches load_permission_rules load_project_permissions load_user_permissions
    parse_permissions_file parse_rule_item get to_list jaros_code.Text.strip
decide_both_tiers = refl

second_key :
    resolve_decision_arg
      (λ v. "?")
      (object (entry "path" (str "") (entry "command" (array (cons (num false 1 0) nil)) end)))
    ≡ some "?"
unfolding resolve_decision_arg get
second_key = refl

decide-Decides_example :
    Decides plain_glob
      (some "shell.exec")
      none
      (rule none "ask" ∷ rule none "deny" ∷ [])
      (decide plain_glob (rule none "ask" ∷ rule none "deny" ∷ []) (some "shell.exec") none)
decide-Decides_example =
    decide-Decides plain_glob (some "shell.exec") none (rule none "ask" ∷ rule none "deny" ∷ [])

parse_permissions_file-IsWellFormed_example :
    All (IsWellFormed "project") (parse_permissions_file files "project")
parse_permissions_file-IsWellFormed_example = parse_permissions_file-IsWellFormed files "project"

decide-load_known_example :
    one_of
      (decide plain_glob
        (load_permission_rules files "project" (some "user"))
        (some "fs.read")
        none)
      valid_actions
    ≡ true
decide-load_known_example =
    decide-load_known files plain_glob (some "fs.read") none "project" (some "user")

decide-load_tiers_example :
    decide plain_glob (load_permission_rules files "project" (some "user")) (some "shell.exec") none
    ≡ (if any
          (λ r. rule_matches plain_glob r (some "shell.exec") none)
          (load_project_permissions files "project")
        then decide plain_glob (load_project_permissions files "project") (some "shell.exec") none
        else decide plain_glob (load_user_permissions files (some "user")) (some "shell.exec") none)
decide-load_tiers_example =
    decide-load_tiers files plain_glob (some "shell.exec") none "project" (some "user")

parse_permissions_file-skips_example :
    parse_permissions_file files "project"
    ≡ filter_map (λ v. parse_rule_item v "project") (deny_shell ∷ [])
unfolding parse_rule_item get to_list
parse_permissions_file-skips_example =
    parse_permissions_file-skips files "project" (deny_shell ∷ []) [] malformed refl refl
