-- ===== src/Runtime/Verdict.antt =====
-- What the gate, the allowlist and the permission rules say of a decision, as one pure verdict,
-- and `guarded` of `Runtime.apply` in harness/coding_loop.py in terms of it.
use jaros_code.Prelude.{
  String, ◌≡◌, refl, ap, ◌∙◌, ◌&&◌, Option, none, some, arith, str_eq, if◌then◌else◌,
}
use jaros_code.Text.{◌<>◌}
use jaros_code.Value.{Value}
use jaros_code.Exec.{Exec, Result, pure, continue, ◌>>◌}
use jaros_code.Permissions.{one_of, accept_edits_auto_types, decide, resolve_decision_arg}
use jaros_code.Runtime.Base.{Decision, Host, Config, call, State, emit}
use jaros_code.Runtime.{
  refuse, check_gate, allowlist_reason, allowed_by, check_allowlist, arg_note, approval,
  is_accept_edits, check_permissions, execute, guarded,
}

-- A refusal: the reason that is emitted and the message that is raised.
pub record Refusal : Type 0 where
  pub reason : String
  pub message : String

abbrev plain : String → Refusal
plain text = record { reason = text; message = text }

-- The first refusal counts.
abbrev pub or_else : Option Refusal → Option Refusal → Option Refusal
or_else none next = next
or_else (some r) next = some r

module _ {W : Type 0} (host : Host W) where
  abbrev pub gate_refusal : Decision → W → Option Refusal
  gate_refusal d w = elim (host.gate d w) [
    | none ↦ none
    | some reason ↦
        some (record { reason = reason; message = "gate rejected " <> d.type <> ": " <> reason })
  ]

  abbrev pub allowlist_refusal : Config → Decision → Option Refusal
  allowlist_refusal cfg d =
      if allowed_by host cfg.tool_allowlist d.type
      then none
      else some (plain (allowlist_reason host d))

  abbrev pub ask_refusal : Config → Decision → Option String → W → Option Refusal
  ask_refusal cfg d arg w =
      if cfg.has_prompt
      then if approval host (host.ask d.type arg w)
        then none
        else some (plain ("permission ask declined for " <> d.type <> arg_note host arg))
      else some (
          plain (
            "permission ask for " <> d.type
            <> " has no interactive prompt available -- denying by safe default"))

  abbrev pub action_refusal : Config → Decision → Option String → String → W → Option Refusal
  action_refusal cfg d arg action w =
      if str_eq action "deny"
      then some (plain ("permission rule denied " <> d.type <> arg_note host arg))
      else if str_eq action "ask"
      then if is_accept_edits host cfg.mode && one_of d.type accept_edits_auto_types
        then none
        else ask_refusal cfg d arg w
      else none

  -- The argument of the decision that the rules see, and the action that they resolve to.
  abbrev pub rule_arg : Decision → Option String
  rule_arg d = resolve_decision_arg host.show d.payload

  abbrev pub rule_action : Config → Decision → String
  rule_action cfg d = decide host.glob cfg.permission_rules (some d.type) (rule_arg d)

  abbrev pub permission_refusal : Config → Decision → W → Option Refusal
  permission_refusal cfg d w = action_refusal cfg d (rule_arg d) (rule_action cfg d) w

  unfoldable pub verdict : Config → Decision → W → Option Refusal
  verdict cfg d w =
      or_else (gate_refusal d w) (or_else (allowlist_refusal cfg d) (permission_refusal cfg d w))

  -- What a check does that refuses by the given refusal.
  abbrev pub obey : Config → Decision → Option Refusal → Exec (State W) (Unit {0})
  obey cfg d none = pure tt
  obey cfg d (some r) = refuse host cfg d r.reason r.message

  module _ (cfg : Config) (d : Decision) (s : State W) where
    check_gate-obey : check_gate host cfg d s ≡ obey cfg d (gate_refusal d s.world) s
    check_gate-obey = ground arith

    check_allowlist-obey : check_allowlist host cfg d s ≡ obey cfg d (allowlist_refusal cfg d) s
    check_allowlist-obey = ground arith

    check_permissions-obey :
        check_permissions host cfg d s ≡ obey cfg d (permission_refusal cfg d s.world) s
    check_permissions-obey = ground arith

  -- The state in which the checks run: only the call has been announced.
  abbrev pub announced : Config → Decision → State W → State W
  announced cfg d s = (emit cfg (call d.type d.payload d.source) s).1

  abbrev pub by_verdict : Config → Decision → Option Refusal → Exec (State W) Value
  by_verdict cfg d none = execute host cfg d
  by_verdict cfg d (some r) = refuse host cfg d r.reason r.message

  module _ (cfg : Config) (d : Decision) where
    -- One check in front of the rest.
    check-then :
        (m : Exec (State W) (Unit {0})) (k : Exec (State W) Value) (first rest : Option Refusal)
        (t : State W)
        → m t ≡ obey cfg d first t
        → k t ≡ by_verdict cfg d rest t
        → (m >> k) t ≡ by_verdict cfg d (or_else first rest) t
    check-then m k none rest t e f =
        ap (λ (r : Result (Unit {0}) × State W). continue r.0 (λ _. k) r.1) e ∙ f
    check-then m k (some r) rest t e f =
        ap (λ (r : Result (Unit {0}) × State W). continue r.0 (λ _. k) r.1) e

    check_last :
        (last : Option Refusal) (t : State W)
        → check_permissions host cfg d t ≡ obey cfg d last t
        → (check_permissions host cfg d >> execute host cfg d) t ≡ by_verdict cfg d last t
    check_last none t e =
        check-then (check_permissions host cfg d) (execute host cfg d) none none t e refl
    check_last (some r) t e =
        check-then (check_permissions host cfg d) (execute host cfg d) (some r) none t e refl

    -- Past plan mode and the hooks, a decision is executed exactly where the gate, then the
    -- allowlist, then the permission rules let it pass; otherwise the first of the three that
    -- refuses is the error, and nothing but the announcement and that error is added to the state.
    pub guarded-verdict :
        (s : State W)
        → guarded host cfg d s ≡ by_verdict cfg d (verdict cfg d s.world) (announced cfg d s)
    unfolding guarded verdict
    guarded-verdict s =
        let t = announced cfg d s in
        check-then (check_gate host cfg d) _ (gate_refusal d t.world) _ t (check_gate-obey cfg d t)
          (check-then (check_allowlist host cfg d) _ (allowlist_refusal cfg d) _ t
            (check_allowlist-obey cfg d t)
            (check_last (permission_refusal cfg d t.world) t (check_permissions-obey cfg d t)))
