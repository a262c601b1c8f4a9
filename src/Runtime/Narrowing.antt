-- ===== src/Runtime/Narrowing.antt =====
-- The safety invariant of harness/permissions.py and harness/subagents.py: permission rules and a
-- tool allowlist only narrow what `Runtime.apply` of harness/coding_loop.py does without them.
use jaros_code.Prelude.{◌≡◌, refl, ap, sym, ◌∙◌, none, [], arith, inl, inr, Bool-cases}
use jaros_code.Value.{Value}
use jaros_code.Exec.{Result, ok, pure, continue, ◌>>◌}
use jaros_code.Permissions.{decide}
use jaros_code.Runtime.Base.{Decision, Host, Config, State}
use jaros_code.Runtime.{
  stamp, execute, guarded, pre_hooks, post_hooks, is_withheld, carry_out, apply,
}
use jaros_code.Runtime.Refusals.{after_pre}
use jaros_code.Runtime.Success.{carry_out-Stages}
use jaros_code.Runtime.Verdict.{verdict, announced, by_verdict, guarded-verdict}

-- The configuration without permission rules and without an allowlist.
abbrev pub unrestricted : Config → Config
unrestricted cfg = record cfg { permission_rules = []; tool_allowlist = none }

module _ {W : Type 0} (host : Host W) (cfg : Config) (d : Decision) where
  verdict-unrestricted :
      (w : W) → verdict host cfg d w ≡ none → verdict host (unrestricted cfg) d w ≡ none
  unfolding verdict decide
  verdict-unrestricted w h = ground arith

  execute-unrestricted : (s : State W) → execute host (unrestricted cfg) d s ≡ execute host cfg d s
  unfolding execute
  execute-unrestricted s = refl

  -- Any configuration that announces, executes and fires hooks alike and passes its checks.
  passed_guard :
      (c : Config) (s : State W)
      → verdict host c d s.world ≡ none
      → guarded host c d s ≡ execute host c d (announced host c d s)
  passed_guard c s h =
      guarded-verdict host c d s ∙ ap (λ o. by_verdict host c d o (announced host c d s)) h

  guarded-unrestricted :
      (s : State W)
      → verdict host cfg d s.world ≡ none
      → guarded host (unrestricted cfg) d s ≡ guarded host cfg d s
  guarded-unrestricted s h =
      passed_guard (unrestricted cfg) s (verdict-unrestricted s.world h)
      ∙ execute-unrestricted (announced host cfg d s)
      ∙ sym (passed_guard cfg s h)

  carry_out-unrestricted :
      (s t : State W) (output : Value)
      → carry_out host cfg d s ≡ (ok output, t)
      → carry_out host (unrestricted cfg) d s ≡ (ok output, t)
  unfolding pre_hooks post_hooks
  carry_out-unrestricted s t output h =
      let stages = carry_out-Stages host cfg d s t output h in
      let u = stages.hooked in
      after_pre host (unrestricted cfg) d s u (ok tt) stages.pre
      ∙ ap (λ (p : Result Value × State W). continue p.0 (λ v. post_hooks host cfg d >> pure v) p.1)
          (guarded-unrestricted u stages.passed)
      ∙ sym (after_pre host cfg d s u (ok tt) stages.pre)
      ∙ h

module _ {W : Type 0} (host : Host W) (cfg : Config) where
  -- Whatever the permission rules and the allowlist are: a call that returns does exactly what it
  -- does without any rule and any allowlist, with the same output and the same final state. So a
  -- rule or an allowlist can turn a call into a refusal and can do nothing else.
  pub apply-unrestricted :
      (decision : Decision) (s t : State W) (output : Value)
      → apply host cfg decision s ≡ (ok output, t)
      → apply host (unrestricted cfg) decision s ≡ (ok output, t)
  unfolding apply
  apply-unrestricted decision s t output h =
      elim (Bool-cases (is_withheld host cfg (stamp host cfg.root decision))) [
        | inl withheld ↦ rw withheld (rw withheld at h)
        | inr acts ↦ rw acts (
            carry_out-unrestricted host cfg (stamp host cfg.root decision) s t output
              (rw acts at h))
      ]
