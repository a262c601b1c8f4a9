-- ===== src/Runtime/RingGrowth.antt =====
-- The checkpoint ring across a whole `Runtime.apply` of harness/coding_loop.py, hooks included.
use mathlib.Core.Path.{subst}
use jaros_code.Prelude.{
  String, ◌≡◌, refl, sym, ◌∙◌, false, ◌⊎◌, inl, inr, Option, none, some, List, Bool-cases,
}
use jaros_code.Value.{Value}
use jaros_code.Exec.{Result, ok, err, pure, continue, ◌>>=◌, ◌>>◌}
use jaros_code.CheckpointRing.{CheckpointEntry, CheckpointRing, append}
use jaros_code.CheckpointRing.Bounds.{IsBounded, append-IsBounded}
use jaros_code.Hooks.{Event, pre_tool_use, post_tool_use, blocking_reason}
use jaros_code.Hooks.Firing.{fire_event-keeps}
use jaros_code.Runtime.Base.{Decision, Host, Config, State}
use jaros_code.Runtime.{
  stamp, checkpoint_path, guarded, hook_config, hook_decision, run_command, fire, unless_blocked,
  pre_hooks, post_hooks, is_withheld, carry_out, apply,
}
use jaros_code.Runtime.Counters.{Effects, guarded-Effects}

-- The ring is as it was, or it has one more entry.
abbrev pub OneMore : CheckpointRing → CheckpointRing → Type 0
OneMore before after = (after ≡ before) ⊎ ((e : CheckpointEntry) × (after ≡ append before e))

module _ {W : Type 0} (host : Host W) where
  checkpoint_path_without :
      (cfg : Config) (d : Decision) → cfg.has_ring ≡ false → checkpoint_path host cfg d ≡ none
  unfolding checkpoint_path
  checkpoint_path_without cfg d e = rw e

  run_command-ring :
      (command : String) (cwd : Option String) (s : State W)
      → (run_command host command cwd s).1.ring ≡ s.ring
  unfolding run_command checkpoint_path
  run_command-ring command cwd s =
      go (guarded host (hook_config host cwd) d s).0
        (guarded-Effects host (hook_config host cwd) d s)
    where
      d : Decision
      d = stamp host cwd (hook_decision host command cwd s.world)

      go :
          (r : Result Value)
          → Effects host
              (hook_config host cwd)
              d
              none
              s
              r
              (guarded host (hook_config host cwd) d s).1
          → (guarded host (hook_config host cwd) d s).1.ring ≡ s.ring
      go (ok v) h = h.1
      go (err e) h = h.ring

  module _ (cfg : Config) (d : Decision) where
    fire-ring : (event : Event) (s : State W) → (fire host cfg d event s).1.ring ≡ s.ring
    fire-ring event s =
        fire_event-keeps host.glob (run_command host) (λ (t : State W). t.ring) run_command-ring
          event (cfg.hooks_config event) (some d.type) cfg.root s

    pre_hooks-ring : (s : State W) → (pre_hooks host cfg d s).1.ring ≡ s.ring
    unfolding pre_hooks
    pre_hooks-ring s =
        let fired = fire host cfg d pre_tool_use s in
        go (blocking_reason host.repr host.show_exit_code fired.0) fired.1
        ∙ fire-ring pre_tool_use s
      where
        go : (o : Option String) (t : State W) → (unless_blocked host cfg d o t).1.ring ≡ t.ring
        go none t = refl
        go (some reason) t = refl

    guarded-OneMore : (s : State W) → OneMore s.ring (guarded host cfg d s).1.ring
    guarded-OneMore s =
        go (checkpoint_path host cfg d) (guarded host cfg d s).0 (guarded-Effects host cfg d s)
      where
        go :
            (path : Option String) (r : Result Value)
            → Effects host cfg d path s r (guarded host cfg d s).1
            → OneMore s.ring (guarded host cfg d s).1.ring
        go path (err e) h = inl h.ring
        go none (ok v) h = inl h.1
        go (some path) (ok v) h = inr (h.1.entry, h.1.kept)

    after_hooks :
        (r : Result Value) (s : State W)
        → (continue r (λ output. post_hooks host cfg d >> pure output) s).1.ring ≡ s.ring
    unfolding post_hooks
    after_hooks (ok v) s = fire-ring post_tool_use s
    after_hooks (err e) s = refl

    after_pre_hooks :
        (r : Result (Unit {0})) (s : State W)
        → OneMore s.ring
            (continue r
              (λ _. guarded host cfg d >>= λ output. post_hooks host cfg d >> pure output)
              s).1.ring
    after_pre_hooks (err e) s = inl refl
    after_pre_hooks (ok u) s =
        subst (OneMore s.ring) (sym (after_hooks (guarded host cfg d s).0 (guarded host cfg d s).1))
          (guarded-OneMore s)

    carry_out-OneMore : (s : State W) → OneMore s.ring (carry_out host cfg d s).1.ring
    unfolding carry_out
    carry_out-OneMore s =
        subst (λ ring. OneMore ring (carry_out host cfg d s).1.ring) (pre_hooks-ring s)
          (after_pre_hooks (pre_hooks host cfg d s).0 (pre_hooks host cfg d s).1)

  module _ (cfg : Config) where
    -- A call of `apply`, whatever its outcome and whatever its hooks do, leaves the ring as it was
    -- or with one more entry; in particular no hook command is ever checkpointed.
    pub apply-OneMore :
        (decision : Decision) (s : State W) → OneMore s.ring (apply host cfg decision s).1.ring
    unfolding apply
    apply-OneMore decision s =
        elim (Bool-cases (is_withheld host cfg (stamp host cfg.root decision))) [
          | inl withheld ↦ rw withheld (inl refl)
          | inr acts ↦ rw acts (carry_out-OneMore cfg (stamp host cfg.root decision) s)
        ]

    OneMore-IsBounded :
        (before after : CheckpointRing) → IsBounded before → OneMore before after → IsBounded after
    OneMore-IsBounded before after h (inl same) = subst IsBounded (sym same) h
    OneMore-IsBounded before after h (inr (e, more)) =
        subst IsBounded (sym more) (append-IsBounded before e)

    -- A sequence of calls from any starting state keeps the ring within its capacity.
    abbrev pub apply_all : List Decision → State W → State W
    apply_all List.[] s = s
    apply_all (List.◌∷◌ d ds) s = apply_all ds (apply host cfg d s).1

    pub apply_all-IsBounded :
        (ds : List Decision) (s : State W) → IsBounded s.ring → IsBounded (apply_all ds s).ring
    apply_all-IsBounded List.[] s h = h
    apply_all-IsBounded (List.◌∷◌ d ds) s h =
        apply_all-IsBounded ds (apply host cfg d s).1
          (OneMore-IsBounded s.ring (apply host cfg d s).1.ring h (apply-OneMore d s))

  module _ (cfg : Config) (without : cfg.has_ring ≡ false) where
    guarded-ring_without : (d : Decision) (s : State W) → (guarded host cfg d s).1.ring ≡ s.ring
    guarded-ring_without d s =
        go (checkpoint_path host cfg d) no_path (guarded host cfg d s).0
          (guarded-Effects host cfg d s)
      where
        no_path : checkpoint_path host cfg d ≡ none
        no_path = checkpoint_path_without cfg d without

        go :
            (path : Option String)
            → path ≡ none
            → (r : Result Value) → Effects host cfg d path s r (guarded host cfg d s).1
            → (guarded host cfg d s).1.ring ≡ s.ring
        go path e (err x) h = h.ring
        go none e (ok v) h = h.1
        go (some path) e (ok v) h = cc

    carry_out-ring_without : (d : Decision) (s : State W) → (carry_out host cfg d s).1.ring ≡ s.ring
    unfolding carry_out
    carry_out-ring_without d s =
        go (pre_hooks host cfg d s).0 (pre_hooks host cfg d s).1 ∙ pre_hooks-ring cfg d s
      where
        go :
            (r : Result (Unit {0})) (t : State W)
            → (continue r
                (λ _. guarded host cfg d >>= λ output. post_hooks host cfg d >> pure output)
                t).1.ring
              ≡ t.ring
        go (err e) t = refl
        go (ok u) t =
            after_hooks cfg d (guarded host cfg d t).0 (guarded host cfg d t).1
            ∙ guarded-ring_without d t

    -- A runtime without a ring never touches the ring of the session.
    pub apply-ring_without :
        (decision : Decision) (s : State W) → (apply host cfg decision s).1.ring ≡ s.ring
    unfolding apply
    apply-ring_without decision s =
        elim (Bool-cases (is_withheld host cfg (stamp host cfg.root decision))) [
          | inl withheld ↦ rw withheld
          | inr acts ↦ rw acts (carry_out-ring_without (stamp host cfg.root decision) s)
        ]
