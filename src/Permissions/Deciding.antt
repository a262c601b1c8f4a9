-- ===== src/Permissions/Deciding.antt =====
-- `decide` of harness/permissions.py against a description of "first match wins".
use jaros_code.Prelude.{
  String, ◌≡◌, refl, Bool, true, false, ◌⊎◌, inl, inr, Bool-cases, Option, List, [], ◌∷◌, ◌++◌, ap,
  arith, any, All, if◌then◌else◌,
}
use mathlib.Core.Path.{subst}
use jaros_code.Permissions.{PermissionRule, rule_matches, decide}

module _ (glob : String → String → Bool) (tool_name arg : Option String) where
  abbrev pub Matches : PermissionRule → Type 0
  Matches rule = rule_matches glob rule tool_name arg ≡ true

  abbrev pub Misses : PermissionRule → Type 0
  Misses rule = rule_matches glob rule tool_name arg ≡ false

  -- A rule that matches, with no matching rule before it.
  pub record FirstMatch (rules : List PermissionRule) (action : String) : Type 0 where
    pub before : List PermissionRule
    pub rule : PermissionRule
    pub after : List PermissionRule
    pub split : rules ≡ before ++ rule ∷ after
    pub earlier : All Misses before
    pub matched : Matches rule
    pub named : action ≡ rule.action

  abbrev pub Decides : List PermissionRule → String → Type 0
  Decides rules action = FirstMatch rules action ⊎ All Misses rules × (action ≡ "allow")

  Decides-skip :
      (rule : PermissionRule) (rules : List PermissionRule) (action : String)
      → Misses rule
      → Decides rules action
      → Decides (rule ∷ rules) action
  Decides-skip rule rules action missed (inl m) = inl (record {
    before = rule ∷ m.before;
    rule = m.rule;
    after = m.after;
    split = ap (λ l. rule ∷ l) m.split;
    earlier = (missed, m.earlier);
    matched = m.matched;
    named = m.named;
  })
  Decides-skip rule rules action missed (inr (none_match, allowed)) =
      inr ((missed, none_match), allowed)

  decide_miss :
      (rule : PermissionRule) (rules : List PermissionRule)
      → Misses rule
      → decide glob rules tool_name arg ≡ decide glob (rule ∷ rules) tool_name arg
  unfolding decide
  decide_miss rule rules miss = ground arith

  -- The resolved action is that of the first rule whose globs both match, and "allow" exactly where
  -- no rule matches: every list of rules falls under one of the two cases.
  pub decide-Decides :
      (rules : List PermissionRule) → Decides rules (decide glob rules tool_name arg)
  unfolding decide
  decide-Decides [] = inr (tt, refl)
  decide-Decides (rule ∷ rules) = elim (Bool-cases (rule_matches glob rule tool_name arg)) [
    | inl hit ↦ inl (record {
      before = [];
      rule = rule;
      after = rules;
      split = refl;
      earlier = tt;
      matched = hit;
      named = rw hit;
    })
    | inr miss ↦
        subst (Decides (rule ∷ rules)) (decide_miss rule rules miss)
          (Decides-skip rule rules (decide glob rules tool_name arg) miss (decide-Decides rules))
  ]

  -- Of two lists in a row the first decides wherever one of its rules matches.
  pub decide-append :
      (first second : List PermissionRule)
      → decide glob (first ++ second) tool_name arg ≡ (
          if any (λ rule. rule_matches glob rule tool_name arg) first
          then decide glob first tool_name arg
          else decide glob second tool_name arg)
  unfolding decide
  decide-append [] second = refl
  decide-append (rule ∷ first) second = ground (arith, decide-append first second)
