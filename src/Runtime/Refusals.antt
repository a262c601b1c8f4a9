-- ===== src/Runtime/Refusals.antt =====
-- Where `Runtime.apply` of harness/coding_loop.py refuses: the gate, blocking hooks and plan mode.
use jaros_code.Prelude.{String, ◌≡◌, refl, ap, ◌∙◌, true, false, Option, none, some, arith}
use jaros_code.Text.{◌<>◌}
use jaros_code.Value.{Value}
use jaros_code.Exec.{runtime_error, Result, ok, err, pure, continue, ◌>>=◌, ◌>>◌}
use jaros_code.Permissions.{Mode, one_of, plan_mode_withheld_types}
use jaros_code.Hooks.{HookOutcome, pre_tool_use, blocked, reason_of}
use jaros_code.Hooks.Firing.{FirstBlocking, blocking_reason-FirstBlocking}
use jaros_code.Runtime.Base.{Decision, Host, Config, failed, State, emit}
use jaros_code.Runtime.{
  stamp, execute, guarded, fire, unless_blocked, pre_hooks, post_hooks, is_withheld,
  plan_description, carry_out, apply,
}
use jaros_code.Runtime.Verdict.{Refusal, verdict, announced, by_verdict, guarded-verdict}

module _ {W : Type 0} where
  -- The parts of the state that `apply` shares with the rest of the program; only `notices`, the
  -- event stream, is left out.
  pub record SameEffects (s t : State W) : Type 0 where
    pub world : t.world ≡ s.world
    pub ring : t.ring ≡ s.ring
    pub tool_usage : t.tool_usage ≡ s.tool_usage
    pub wiring_usage : t.wiring_usage ≡ s.wiring_usage

module _ {W : Type 0} (host : Host W) (cfg : Config) where
  pub stamp-type : (root : Option String) (d : Decision) → (stamp host root d).type ≡ d.type
  unfolding stamp
  stamp-type none d = refl
  stamp-type (some root) d = ground arith

  pub not_withheld :
      (decision : Decision) (s : State W)
      → is_withheld host cfg (stamp host cfg.root decision) ≡ false
      → apply host cfg decision s ≡ carry_out host cfg (stamp host cfg.root decision) s
  unfolding apply
  not_withheld decision s acts = rw acts

  pub after_pre :
      (d : Decision) (s t : State W) (r : Result (Unit {0}))
      → pre_hooks host cfg d s ≡ (r, t)
      → carry_out host cfg d s
        ≡ continue r (λ _. guarded host cfg d >>= λ output. post_hooks host cfg d >> pure output) t
  unfolding carry_out
  after_pre d s t r e =
      ap
        (λ (p : Result (Unit {0}) × State W).
          continue p.0 (λ _. guarded host cfg d >>= λ output. post_hooks host cfg d >> pure output)
            p.1)
        e

  pub after_guarded :
      (d : Decision) (s : State W) (r : Result Value) (t : State W)
      → guarded host cfg d s ≡ (r, t)
      → (guarded host cfg d >>= λ output. post_hooks host cfg d >> pure output) s
        ≡ continue r (λ output. post_hooks host cfg d >> pure output) t
  after_guarded d s r t e =
      ap
        (λ (p : Result Value × State W).
          continue p.0 (λ output. post_hooks host cfg d >> pure output) p.1)
        e

  -- A refusal by the gate, the allowlist or the rules is final.
  pub carry_out-refused :
      (d : Decision) (s t : State W) (r : Refusal)
      → pre_hooks host cfg d s ≡ (ok tt, t)
      → verdict host cfg d t.world ≡ some r
      → carry_out host cfg d s ≡ (
        err (runtime_error r.message),
        (emit cfg (failed d.type r.reason) (announced host cfg d t)).1,
      )
  carry_out-refused d s t r pre v =
      after_pre d s t (ok tt) pre
      ∙ after_guarded d t _ _ (
          guarded-verdict host cfg d t
          ∙ ap (λ o. by_verdict host cfg d o (announced host cfg d t)) v)

  gate-verdict :
      (d : Decision) (w : W) (reason : String)
      → host.gate d w ≡ some reason
      → verdict host cfg d w
        ≡ some (record { reason = reason; message = "gate rejected " <> d.type <> ": " <> reason })
  unfolding verdict
  gate-verdict d w reason e = ground arith

  -- Outside plan mode, and past the PreToolUse hooks, a decision that the gate rejects is an error
  -- with the gate's reason, whatever the allowlist, the permission rules, the mode and the prompt
  -- are: the world, the checkpoint ring and the counters stay as the hooks left them.
  pub apply-gate :
      (decision : Decision) (s t : State W) (reason : String)
      → is_withheld host cfg (stamp host cfg.root decision) ≡ false
      → pre_hooks host cfg (stamp host cfg.root decision) s ≡ (ok tt, t)
      → host.gate (stamp host cfg.root decision) t.world ≡ some reason
      → ((apply host cfg decision s).0
          ≡ err (runtime_error ("gate rejected " <> decision.type <> ": " <> reason)))
        × SameEffects t (apply host cfg decision s).1
  apply-gate decision s t reason acts pre rejected =
      let d = stamp host cfg.root decision in
      let e =
        not_withheld decision s acts
        ∙ carry_out-refused d s t _ pre (gate-verdict d t.world reason rejected) in
      rw e (
        ap (λ (type : String). err (runtime_error ("gate rejected " <> type <> ": " <> reason)))
            (stamp-type cfg.root decision),
        record { world = refl; ring = refl; tool_usage = refl; wiring_usage = refl },
      )

  pre_hooks-blocked :
      (d : Decision) (s : State W)
      → blocked (fire host cfg d pre_tool_use s).0 ≡ true
      → (o : HookOutcome) × FirstBlocking (fire host cfg d pre_tool_use s).0 o
        × (pre_hooks host cfg d s
            ≡ unless_blocked host cfg d
                (some (reason_of host.repr host.show_exit_code o))
                (fire host cfg d pre_tool_use s).1)
  unfolding pre_hooks
  pre_hooks-blocked d s h =
      let (o, first, reason) =
        blocking_reason-FirstBlocking host.repr host.show_exit_code
          (fire host cfg d pre_tool_use s).0 h in
      (o, first, rw reason)

  -- Outside plan mode, a PreToolUse hook that exits with a code other than 0 makes the call an
  -- error that names the first such hook, before the gate is asked: beside the event stream the
  -- state is the one that the hooks left.
  pub apply-blocked :
      (decision : Decision) (s : State W)
      → is_withheld host cfg (stamp host cfg.root decision) ≡ false
      → blocked (fire host cfg (stamp host cfg.root decision) pre_tool_use s).0 ≡ true
      → (o : HookOutcome) × FirstBlocking
          (fire host cfg (stamp host cfg.root decision) pre_tool_use s).0
          o
        × ((apply host cfg decision s).0
            ≡ err (
                runtime_error (
                  "PreToolUse hook blocked "
                  <> decision.type
                  <> ": "
                  <> reason_of host.repr host.show_exit_code o)))
        × SameEffects
            (fire host cfg (stamp host cfg.root decision) pre_tool_use s).1
            (apply host cfg decision s).1
  apply-blocked decision s acts h =
      let d = stamp host cfg.root decision in
      let (o, first, e) = pre_hooks-blocked d s h in
      let whole = not_withheld decision s acts ∙ after_pre d s _ _ e in
      (
        o,
        first,
        rw whole (
            ap
              (λ (type : String). err (
                runtime_error (
                  "PreToolUse hook blocked "
                  <> type
                  <> ": "
                  <> reason_of host.repr host.show_exit_code o)))
              (stamp-type cfg.root decision)),
        rw whole (record { world = refl; ring = refl; tool_usage = refl; wiring_usage = refl }),
      )

abbrev pub with_mode : Mode → Config → Config
with_mode mode cfg = record cfg { mode = mode }

module _ {W : Type 0} (host : Host W) (cfg : Config) where
  -- In plan mode a write or shell decision is described and nothing else happens: no hook, no gate
  -- and no executor runs, and the world, the checkpoint ring and the counters are as before.
  pub apply-plan_withheld :
      (decision : Decision) (s : State W)
      → one_of decision.type plan_mode_withheld_types ≡ true
      → ((apply host (with_mode Mode.plan cfg) decision s).0
          ≡ ok (plan_description host (stamp host cfg.root decision)))
        × SameEffects s (apply host (with_mode Mode.plan cfg) decision s).1
  unfolding apply
  apply-plan_withheld decision s withheld =
      let e = ap (λ t. one_of t plan_mode_withheld_types) (stamp-type host cfg cfg.root decision) in
      rw (e, withheld)
        (refl, record { world = refl; ring = refl; tool_usage = refl; wiring_usage = refl })

  -- A decision of a type that plan mode does not withhold is carried out in plan mode exactly as in
  -- default mode.
  pub apply-plan_other :
      (decision : Decision) (s : State W)
      → one_of decision.type plan_mode_withheld_types ≡ false
      → apply host (with_mode Mode.plan cfg) decision s
        ≡ apply host (with_mode Mode.default cfg) decision s
  unfolding apply carry_out guarded execute pre_hooks post_hooks
  apply-plan_other decision s other =
      let e = ap (λ t. one_of t plan_mode_withheld_types) (stamp-type host cfg cfg.root decision) in
      rw (e, other)
