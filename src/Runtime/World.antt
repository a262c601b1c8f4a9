-- ===== src/Runtime/World.antt =====
-- What `Runtime.apply` of harness/coding_loop.py does to the outside world where no hook is
-- configured: the executor's own effect and nothing else.
use jaros_code.Prelude.{◌≡◌, refl, ap, ◌∙◌, String, Bool, true, false, Option, none, some, []}
use jaros_code.Value.{Value}
use jaros_code.Exec.{Result, ok, err, pure, continue, ◌>>◌}
use jaros_code.Hooks.{HooksConfig, fire_event, blocking_reason}
use jaros_code.Runtime.Base.{Decision, Outcome, applied, refused, raised, Config, Host, State}
use jaros_code.Runtime.{
  checkpoint_path, captured, settle, execute, guarded, pre_hooks, post_hooks, carry_out,
}
use jaros_code.Runtime.Verdict.{Refusal, verdict, announced, by_verdict, guarded-verdict}

abbrev pub silent : HooksConfig
silent event = []

abbrev pub quiet : Config → Config
quiet cfg = record cfg { hooks_config = silent }

module _ {W : Type 0} (host : Host W) (cfg : Config) (d : Decision) where
  settle-world :
      (path : Option String) (before : Bool × Option String) (o : Outcome) (s : State W)
      → (settle host cfg d path before o s).1.world ≡ s.world
  settle-world none before (applied v) s = refl
  settle-world (some p) before (applied v) s = refl
  settle-world path before (refused reason) s = refl
  settle-world path before (raised message) s = refl

  guarded-world :
      (s : State W)
      → verdict host cfg d s.world ≡ none
      → (guarded host cfg d s).1.world ≡ (host.execute d s.world).1
  unfolding execute
  guarded-world s h =
      ap (λ p. p.1.world) (guarded-verdict host cfg d s)
      ∙ ap (λ o. (by_verdict host cfg d o (announced host cfg d s)).1.world) h
      ∙ settle-world (checkpoint_path host cfg d)
          (captured host (checkpoint_path host cfg d) s.world) (host.execute d s.world).0
          (record s {
            world = (host.execute d s.world).1;
            notices = (announced host cfg d s).notices;
          })

module _ {W : Type 0} (host : Host W) (cfg : Config) where
  after_silent :
      (d : Decision) (r : Result Value) (s : State W)
      → (continue r (λ output. post_hooks host (quiet cfg) d >> pure output) s).1.world ≡ s.world
  unfolding post_hooks fire_event
  after_silent d (ok v) s = refl
  after_silent d (err e) s = refl

  pub carry_out-world :
      (d : Decision) (s : State W)
      → verdict host (quiet cfg) d s.world ≡ none
      → (carry_out host (quiet cfg) d s).1.world ≡ (host.execute d s.world).1
  unfolding carry_out pre_hooks fire_event blocking_reason
  carry_out-world d s h =
      after_silent d (guarded host (quiet cfg) d s).0 (guarded host (quiet cfg) d s).1
      ∙ guarded-world host (quiet cfg) d s h

abbrev pub is_applied : Outcome → Bool
is_applied (applied output) = true
is_applied (refused reason) = false
is_applied (raised message) = false

-- Whether the executor is reached and applies the decision
abbrev pub lands : Option Refusal → Outcome → Bool
lands none o = is_applied o
lands (some r) o = false

abbrev pub returns : Result Value → Bool
returns (ok output) = true
returns (err e) = false

module _ {W : Type 0} (host : Host W) (cfg : Config) (d : Decision) where
  settle-returns :
      (path : Option String) (before : Bool × Option String) (o : Outcome) (s : State W)
      → returns (settle host cfg d path before o s).0 ≡ is_applied o
  settle-returns none before (applied v) s = refl
  settle-returns (some p) before (applied v) s = refl
  settle-returns path before (refused reason) s = refl
  settle-returns path before (raised message) s = refl

  by_verdict-returns :
      (r : Option Refusal) (s : State W)
      → returns (by_verdict host cfg d r s).0 ≡ lands r (host.execute d s.world).0
  unfolding execute
  by_verdict-returns none s =
      settle-returns (checkpoint_path host cfg d)
        (captured host (checkpoint_path host cfg d) s.world) (host.execute d s.world).0
        (record s { world = (host.execute d s.world).1 })
  by_verdict-returns (some r) s = refl

  by_verdict-world :
      (r : Refusal) (s : State W) → (by_verdict host cfg d (some r) s).1.world ≡ s.world
  by_verdict-world r s = refl

module _ {W : Type 0} (host : Host W) (cfg : Config) (d : Decision) where
  after_silent-returns :
      (r : Result Value) (s : State W)
      → returns (continue r (λ output. post_hooks host (quiet cfg) d >> pure output) s).0
        ≡ returns r
  unfolding post_hooks fire_event
  after_silent-returns (ok v) s = refl
  after_silent-returns (err e) s = refl

  -- Without hooks a decision returns exactly where the verdict lets it pass and the executor applies
  -- it.
  pub carry_out-returns :
      (s : State W)
      → returns (carry_out host (quiet cfg) d s).0
        ≡ lands (verdict host (quiet cfg) d s.world) (host.execute d s.world).0
  unfolding carry_out pre_hooks fire_event blocking_reason
  carry_out-returns s =
      after_silent-returns (guarded host (quiet cfg) d s).0 (guarded host (quiet cfg) d s).1
      ∙ ap (λ p. returns p.0) (guarded-verdict host (quiet cfg) d s)
      ∙ by_verdict-returns host (quiet cfg) d (verdict host (quiet cfg) d s.world)
          (announced host (quiet cfg) d s)

  -- A refused decision leaves the outside world as it was.
  pub carry_out-refused_world :
      (s : State W) (r : Refusal)
      → verdict host (quiet cfg) d s.world ≡ some r
      → (carry_out host (quiet cfg) d s).1.world ≡ s.world
  unfolding carry_out pre_hooks fire_event blocking_reason
  carry_out-refused_world s r h =
      after_silent host cfg d (guarded host (quiet cfg) d s).0 (guarded host (quiet cfg) d s).1
      ∙ ap (λ p. p.1.world) (guarded-verdict host (quiet cfg) d s)
      ∙ ap (λ o. (by_verdict host (quiet cfg) d o (announced host (quiet cfg) d s)).1.world) h
