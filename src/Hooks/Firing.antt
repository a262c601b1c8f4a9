-- ===== src/Hooks/Firing.antt =====
-- The outcomes of `fire_event` in harness/hooks.py, and the blocking reason among them.
use jaros_code.Prelude.{
  String, ◌≡◌, refl, ◌∙◌, Bool, true, false, inl, inr, Bool-cases, Option, none, some, List, [],
  ◌∷◌, ◌++◌, ap, arith,
}
use jaros_code.Value.{Value}
use jaros_code.Exec.{Exec, Result, ok, err}
use jaros_code.Hooks.{
  Event, HookDef, HookOutcome, outcome_of, cons_outcome, applies, fire_event, blocked,
  blocking_reason, reason_of, is_pre,
}

-- The first blocking outcome, with none before it.
pub record FirstBlocking (outcomes : List HookOutcome) (o : HookOutcome) : Type 0 where
  pub before : List HookOutcome
  pub after : List HookOutcome
  pub split : outcomes ≡ before ++ o ∷ after
  pub passed : blocked before ≡ false
  pub blocks : o.blocked ≡ true

module _ (repr : String → String) (show : Option Value → String) where
  -- A blocked list of outcomes has a reason, that of its first blocking hook.
  pub blocking_reason-FirstBlocking :
      (outcomes : List HookOutcome)
      → blocked outcomes ≡ true
      → (o : HookOutcome) × FirstBlocking outcomes o
        × (blocking_reason repr show outcomes ≡ some (reason_of repr show o))
  unfolding blocked blocking_reason
  blocking_reason-FirstBlocking [] h = cc
  blocking_reason-FirstBlocking (o ∷ os) h = elim (Bool-cases o.blocked) [
    | inl blocks ↦ (
      o,
      record { before = []; after = os; split = refl; passed = refl; blocks = blocks },
      rw blocks,
    )
    | inr passes ↦
        let (p, first, reason) = blocking_reason-FirstBlocking os (ground arith) in
        (
          p,
          record {
            before = o ∷ first.before;
            after = first.after;
            split = ap (λ l. o ∷ l) first.split;
            passed = ground (arith, first.passed);
            blocks = first.blocks;
          },
          ground (arith, reason),
        )
  ]

  -- Nothing blocks exactly where there is no reason.
  pub blocking_reason-none :
      (outcomes : List HookOutcome)
      → blocked outcomes ≡ false
      → blocking_reason repr show outcomes ≡ none
  unfolding blocked blocking_reason
  blocking_reason-none [] h = refl
  blocking_reason-none (o ∷ os) h = ground (arith, blocking_reason-none os)

-- An outcome of an event other than PreToolUse never blocks.
module _ {S : Type 0} (glob : String → String → Bool)
    (runner : String → Option String → Exec S Value) where
  blocked-cons_outcome :
      (event : Event) (hook : HookDef) (r : Result Value) (rest : List HookOutcome)
      → is_pre event ≡ false
      → blocked rest ≡ false
      → blocked (cons_outcome event hook r rest) ≡ false
  unfolding blocked outcome_of
  blocked-cons_outcome event hook (ok v) rest e h = rw (e, h)
  blocked-cons_outcome event hook (err x) rest e h = h

  pub fire_event-blocked :
      (event : Event) (hooks : List HookDef) (tool_name cwd : Option String) (s : S)
      → is_pre event ≡ false
      → blocked (fire_event glob runner event hooks tool_name cwd s).0 ≡ false
  unfolding fire_event blocked
  fire_event-blocked event [] tool_name cwd s e = refl
  fire_event-blocked event (hook ∷ hooks) tool_name cwd s e =
      elim (Bool-cases (applies glob event hook tool_name)) [
        | inl fires ↦
            rw (fires, fire_event)
              (blocked-cons_outcome event hook (runner hook.command cwd s).0 _ e
                (fire_event-blocked event hooks tool_name cwd (runner hook.command cwd s).1 e))
        | inr skips ↦ rw (skips, fire_event) (fire_event-blocked event hooks tool_name cwd s e)
      ]

  cons_outcome-append :
      (event : Event) (hook : HookDef) (r : Result Value) (xs ys : List HookOutcome)
      → cons_outcome event hook r (xs ++ ys) ≡ cons_outcome event hook r xs ++ ys
  cons_outcome-append event hook (ok v) xs ys = refl
  cons_outcome-append event hook (err x) xs ys = refl

  -- Firing two lists of hooks in a row: both fire, the first list first, each from the state that
  -- the hooks before it left.
  pub fire_event-append :
      (event : Event) (first second : List HookDef) (tool_name cwd : Option String) (s : S)
      → fire_event glob runner event (first ++ second) tool_name cwd s ≡ (
          let a = fire_event glob runner event first tool_name cwd s in
          let b = fire_event glob runner event second tool_name cwd a.1 in (a.0 ++ b.0, b.1))
  unfolding fire_event
  fire_event-append event [] second tool_name cwd s = refl
  fire_event-append event (hook ∷ first) second tool_name cwd s =
      elim (Bool-cases (applies glob event hook tool_name)) [
        | inl fires ↦
            let t = (runner hook.command cwd s).1 in
            rw (fires, fire_event)
              (rw (fire_event-append event first second tool_name cwd t)
                (rw (cons_outcome-append event hook (runner hook.command cwd s).0)))
        | inr skips ↦ rw (skips, fire_event) (fire_event-append event first second tool_name cwd s)
      ]

  -- What every run of a command keeps, firing keeps.
  pub fire_event-keeps :
      {A : Type 0} (view : S → A)
      → ((command : String) (cwd : Option String) (s : S) → view (runner command cwd s).1 ≡ view s)
      → (event : Event) (hooks : List HookDef) (tool_name cwd : Option String) (s : S)
      → view (fire_event glob runner event hooks tool_name cwd s).1 ≡ view s
  unfolding fire_event
  fire_event-keeps view keeps event [] tool_name cwd s = refl
  fire_event-keeps view keeps event (hook ∷ hooks) tool_name cwd s =
      elim (Bool-cases (applies glob event hook tool_name)) [
        | inl fires ↦
            rw (fires, fire_event)
              (fire_event-keeps view keeps event hooks tool_name cwd (runner hook.command cwd s).1
                ∙ keeps hook.command cwd s)
        | inr skips ↦
            rw (skips, fire_event) (fire_event-keeps view keeps event hooks tool_name cwd s)
      ]
