-- ===== src/Permissions/Loading.antt =====
-- What harness/permissions.py accepts from the configuration files, and what follows for `decide`.
use jaros_code.Prelude.{
  String, ◌≡◌, refl, Bool, true, false, inl, inr, Bool-cases, Option, none, some, List, [], ◌∷◌,
  ◌++◌, arith, any, All, filter_map, OnSome, All-filter_map, All-append, All-of, filter_map-append,
  if◌then◌else◌,
}
use jaros_code.Text.{is_empty, strip, strip_idem}
use jaros_code.Value.{Value, str, object, Fields, get}
use jaros_code.Permissions.{
  PermissionRule, one_of, valid_actions, non_blank, stripped_text, rule_of, parse_rule_item,
  rule_items, parse_permissions_file, load_project_permissions, load_user_permissions,
  load_permission_rules, rule_matches, decide,
}
use jaros_code.Permissions.Deciding.{decide-append}

-- A glob is absent, or not blank and without surrounding spaces.
abbrev pub IsCleanGlob : Option String → Type 0
IsCleanGlob none = Unit {0}
IsCleanGlob (some glob) = (is_empty glob ≡ false) × (strip glob ≡ glob)

pub record IsWellFormed (source : String) (rule : PermissionRule) : Type 0 where
  pub known_action : one_of rule.action valid_actions ≡ true
  pub clean_tool : IsCleanGlob rule.tool
  pub clean_arg : IsCleanGlob rule.arg
  pub from_source : rule.source ≡ source

non_blank-IsCleanGlob : (s : String) → IsCleanGlob (non_blank s)
non_blank-IsCleanGlob s = elim (Bool-cases (is_empty (strip s))) [
  | inl blank ↦ rw (blank, IsCleanGlob) tt
  | inr full ↦ rw (full, IsCleanGlob) (full, strip_idem s)
]

stripped_text-IsCleanGlob : (v : Option Value) → IsCleanGlob (stripped_text v)
stripped_text-IsCleanGlob none = tt
stripped_text-IsCleanGlob (some (str s)) = non_blank-IsCleanGlob s
stripped_text-IsCleanGlob (some _) = tt

rule_of-IsWellFormed :
    (fs : Fields) (source : String) (action : Option Value)
    → OnSome (IsWellFormed source) (rule_of fs source action)
rule_of-IsWellFormed fs source (some (str action)) =
    elim (Bool-cases (one_of action valid_actions)) [
      | inl known ↦
          rw (known, OnSome)
            (record {
              known_action = known;
              clean_tool = stripped_text-IsCleanGlob (get fs "tool");
              clean_arg = stripped_text-IsCleanGlob (get fs "arg");
              from_source = refl;
            })
      | inr unknown ↦ rw (unknown, OnSome) tt
    ]
rule_of-IsWellFormed fs source none = tt
rule_of-IsWellFormed fs source (some _) = tt

parse_rule_item-IsWellFormed :
    (item : Value) (source : String) → OnSome (IsWellFormed source) (parse_rule_item item source)
unfolding parse_rule_item
parse_rule_item-IsWellFormed (object fs) source = rule_of-IsWellFormed fs source (get fs "action")
parse_rule_item-IsWellFormed _ source = tt

abbrev HasKnownAction : PermissionRule → Type 0
HasKnownAction rule = one_of rule.action valid_actions ≡ true

module _ (read_json : String → Option Value) where
  -- Whatever a configuration file holds, each rule that is kept from it has a known action, globs
  -- that are absent or stripped and not blank, and the path of the file as its source.
  pub parse_permissions_file-IsWellFormed :
      (path : String) → All (IsWellFormed path) (parse_permissions_file read_json path)
  unfolding parse_permissions_file
  parse_permissions_file-IsWellFormed path =
      All-filter_map (IsWellFormed path) (λ item. parse_rule_item item path)
        (rule_items (read_json path)) (λ item. parse_rule_item-IsWellFormed item path)

  load_user-known :
      (user_path : Option String) → All HasKnownAction (load_user_permissions read_json user_path)
  unfolding load_user_permissions
  load_user-known none = tt
  load_user-known (some path) =
      All-of HasKnownAction (IsWellFormed path) (λ rule h. h.known_action)
        (parse_permissions_file read_json path) (parse_permissions_file-IsWellFormed path)

  load-known :
      (project_path : String) (user_path : Option String)
      → All HasKnownAction (load_permission_rules read_json project_path user_path)
  unfolding load_permission_rules load_project_permissions
  load-known project_path user_path =
      All-append HasKnownAction (parse_permissions_file read_json project_path)
        (load_user_permissions read_json user_path)
        (All-of HasKnownAction (IsWellFormed project_path) (λ rule h. h.known_action)
          (parse_permissions_file read_json project_path)
          (parse_permissions_file-IsWellFormed project_path))
        (load_user-known user_path)

  module _ (glob : String → String → Bool) (tool_name arg : Option String) where
    decide-known :
        (rules : List PermissionRule)
        → All HasKnownAction rules
        → one_of (decide glob rules tool_name arg) valid_actions ≡ true
    unfolding decide
    decide-known [] h = refl
    decide-known (rule ∷ rules) h = ground (arith, decide-known rules h.1, h.0)

    -- Whatever the two configuration files hold, `decide` on the loaded rules resolves to "allow",
    -- "ask" or "deny".
    pub decide-load_known :
        (project_path : String) (user_path : Option String)
        → one_of
            (decide glob (load_permission_rules read_json project_path user_path) tool_name arg)
            valid_actions
          ≡ true
    decide-load_known project_path user_path =
        decide-known (load_permission_rules read_json project_path user_path)
          (load-known project_path user_path)

    -- A project rule that matches decides, whatever the user's file holds; where no project rule
    -- matches, the user's rules decide alone.
    pub decide-load_tiers :
        (project_path : String) (user_path : Option String)
        → decide glob (load_permission_rules read_json project_path user_path) tool_name arg ≡ (
            if any
              (λ rule. rule_matches glob rule tool_name arg)
              (load_project_permissions read_json project_path)
            then decide glob (load_project_permissions read_json project_path) tool_name arg
            else decide glob (load_user_permissions read_json user_path) tool_name arg)
    unfolding load_permission_rules
    decide-load_tiers project_path user_path =
        decide-append glob tool_name arg (load_project_permissions read_json project_path)
          (load_user_permissions read_json user_path)

  -- An item that does not parse contributes nothing and leaves the items around it as they are.
  pub parse_permissions_file-skips :
      (path : String) (before after : List Value) (item : Value)
      → rule_items (read_json path) ≡ before ++ item ∷ after
      → parse_rule_item item path ≡ none
      → parse_permissions_file read_json path
        ≡ filter_map (λ v. parse_rule_item v path) (before ++ after)
  unfolding parse_permissions_file
  parse_permissions_file-skips path before after item items bad =
      rw (items, filter_map-append, filter_map-append) (rw (bad, filter_map) refl)
