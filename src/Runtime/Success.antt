-- ===== src/Runtime/Success.antt =====
-- What a successful `Runtime.apply` of harness/coding_loop.py shows: every decision that reached
-- the executor had passed the gate, the allowlist and the permission rules.
use jaros_code.Prelude.{
  ◌≡◌, refl, ap, sym, ◌∙◌, true, false, ◌⊎◌, Option, none, some, arith, str_eq,
}
use mathlib.Core.Path.{subst}
use jaros_code.Value.{Value}
use jaros_code.Exec.{Exec, Result, ok, err, pure, continue, ◌>>=◌, ◌>>◌}
use jaros_code.Permissions.{one_of, accept_edits_auto_types}
use jaros_code.Runtime.Base.{Decision, Host, Config, State}
use jaros_code.Runtime.{
  stamp, allowed_by, is_accept_edits, execute, guarded, pre_hooks, post_hooks, is_withheld,
  carry_out, apply,
}
use jaros_code.Runtime.Refusals.{not_withheld}
use jaros_code.Runtime.Verdict.{
  Refusal, verdict, announced, by_verdict, guarded-verdict, rule_arg, rule_action,
}

-- What must hold of a decision before it may be executed, in the world in which it is checked.
pub record IsAuthorised {W : Type 0} (host : Host W) (cfg : Config) (d : Decision) (w : W)
    : Type 0 where
  pub gate_accepts : host.gate d w ≡ none
  pub is_listed : allowed_by host cfg.tool_allowlist d.type ≡ true
  pub not_denied : str_eq (rule_action host cfg d) "deny" ≡ false
  pub if_asked :
      (str_eq (rule_action host cfg d) "ask" ≡ false)
      ⊎ ((is_accept_edits host cfg.mode ≡ true) × (one_of d.type accept_edits_auto_types ≡ true))
      ⊎ ((cfg.has_prompt ≡ true) × (host.ask d.type (rule_arg host d) w ≡ some true))

-- The stages of a successful call: the state after the PreToolUse hooks and the state in which the
-- executor and its bookkeeping left it.
pub record Stages {W : Type 0} (host : Host W) (cfg : Config) (d : Decision) (s : State W)
    (output : Value) (final : State W) : Type 0 where
  pub hooked : State W
  pub done : State W
  pub pre : pre_hooks host cfg d s ≡ (ok tt, hooked)
  pub passed : verdict host cfg d hooked.world ≡ none
  pub ran : execute host cfg d (announced host cfg d hooked) ≡ (ok output, done)
  pub post : final ≡ (post_hooks host cfg d done).1

continue-eq-ok :
    {S A B : Type 0} (r : Result A) (f : A → Exec S B) (s : S) {b : B} {t : S}
    → continue r f s ≡ (ok b, t)
    → (a : A) × (r ≡ ok a) × (f a s ≡ (ok b, t))
continue-eq-ok (ok a) f s h = (a, refl, h)
continue-eq-ok (err e) f s h = cc (ap (λ p. p.0) h)

module _ {W : Type 0} (host : Host W) (cfg : Config) (d : Decision) where
  verdict-none→IsAuthorised : (w : W) → verdict host cfg d w ≡ none → IsAuthorised host cfg d w
  unfolding verdict
  verdict-none→IsAuthorised w h = record {
    gate_accepts = ground arith;
    is_listed = ground arith;
    not_denied = ground arith;
    if_asked = ground arith;
  }

  by_verdict-ok :
      (o : Option Refusal) (s : State W) {v : Value} {t : State W}
      → by_verdict host cfg d o s ≡ (ok v, t)
      → (o ≡ none) × (execute host cfg d s ≡ (ok v, t))
  by_verdict-ok none s h = (refl, h)
  by_verdict-ok (some r) s h = cc (ap (λ p. p.0) h)

  ok_inj : {A : Type 0} {a b : A} → ◌≡◌ {A = Result A} (ok a) (ok b) → a ≡ b
  ok_inj e = cc

  pair_of : {A : Type 0} {r : Result A} (m : Result A × State W) → m.0 ≡ r → m ≡ (r, m.1)
  pair_of m e = λ i. (e i, m.1)

  -- The stages of a call that returned, and the result that it returned.
  pub carry_out-Stages :
      (s t : State W) (v : Value) → carry_out host cfg d s ≡ (ok v, t) → Stages host cfg d s v t
  unfolding carry_out post_hooks
  carry_out-Stages s t v h =
      let pre = pre_hooks host cfg d s in
      let (u, pre_ok, rest) =
        continue-eq-ok pre.0
          (λ _. guarded host cfg d >>= λ output. post_hooks host cfg d >> pure output) pre.1 h in
      let ran = guarded host cfg d pre.1 in
      let (w, ran_ok, last) =
        continue-eq-ok ran.0 (λ output. post_hooks host cfg d >> pure output) ran.1 rest in
      let (passed, executed) =
        by_verdict-ok (verdict host cfg d pre.1.world) (announced host cfg d pre.1)
          (sym (guarded-verdict host cfg d pre.1) ∙ pair_of ran ran_ok) in
      let same : w ≡ v = ok_inj (ap (λ p. p.0) last) in
      record {
        hooked = pre.1;
        done = ran.1;
        pre = pair_of pre pre_ok;
        passed = passed;
        ran = executed ∙ ap (λ x. (ok x, ran.1)) same;
        post = sym (ap (λ p. p.1) last);
      }

module _ {W : Type 0} (host : Host W) (cfg : Config) where
  -- Outside plan mode, a call that returned had been authorised in the world that its PreToolUse
  -- hooks left: the gate accepts the stamped decision, its type is on the allowlist if there is
  -- one, no rule denies it, and where a rule says "ask" either the mode is acceptEdits and the
  -- type is one of the three edit types, or a prompt is there and answers yes.
  pub apply-IsAuthorised :
      (decision : Decision) (s t : State W) (output : Value)
      → is_withheld host cfg (stamp host cfg.root decision) ≡ false
      → apply host cfg decision s ≡ (ok output, t)
      → IsAuthorised host cfg
          (stamp host cfg.root decision)
          (pre_hooks host cfg (stamp host cfg.root decision) s).1.world
  apply-IsAuthorised decision s t output acts h =
      let d = stamp host cfg.root decision in
      let stages =
        carry_out-Stages host cfg d s t output (sym (not_withheld host cfg decision s acts) ∙ h) in
      subst (λ (u : State W). IsAuthorised host cfg d u.world) (sym (ap (λ p. p.1) stages.pre))
        (verdict-none→IsAuthorised host cfg d stages.hooked.world stages.passed)
