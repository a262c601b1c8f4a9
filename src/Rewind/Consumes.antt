-- ===== src/Rewind/Consumes.antt =====
-- What `/rewind` of harness/cli.py reports and what it takes from the checkpoint ring.
use jaros_code.Prelude.{
  ℕ, ◌≤◌, ◌≡◌, refl, ap, sym, ◌∙◌, ◌++◌, String, false, Option, some, List, [], ◌∷◌, map, arith,
  length, Bool-cases, inl, inr, if◌then◌else◌,
}
use jaros_code.Value.{Value}
use jaros_code.Exec.{Result, ok, err}
use jaros_code.Permissions.{Mode}
use mathlib.Core.Path.{subst}
use jaros_code.CheckpointRing.{
  CheckpointEntry, CheckpointRing, entries_newest_first, last_n, drop_last_n,
}
use jaros_code.CheckpointRing.Bounds.{last_n-drop_last_n}
use jaros_code.Runtime.Base.{Config, Host, State}
use jaros_code.Runtime.{apply}
use jaros_code.Runtime.Refusals.{with_mode, apply-plan_withheld}
use jaros_code.Runtime.RingGrowth.{apply-ring_without}
use jaros_code.Rewind.{
  Line, created, no_runtime, restored, failed, report, write_runtime, restore_decision, line_of,
  restore, restore_all, rewind_steps,
}

-- The path that a line is about.
abbrev pub path_of_line : Line → String
path_of_line (created path) = path
path_of_line (no_runtime path) = path
path_of_line (restored path) = path
path_of_line (failed path e) = path

-- The n newest checkpoints, newest first, are taken from a ring, and the ring after holds the others,
-- in order, under the same capacity.
pub record Took (n : ℕ) (before : CheckpointRing) (taken : List CheckpointEntry)
    (after : CheckpointRing) : Type 0 where
  pub newest : taken ++ entries_newest_first after ≡ entries_newest_first before
  pub as_many : length taken ≡ n
  pub capacity : after.maxlen ≡ before.maxlen

pub last_n-Took :
    (ring : CheckpointRing) (n : ℕ)
    → n ≤ length ring.entries
    → Took n ring (last_n ring n) (drop_last_n ring n)
last_n-Took ring n inside =
    let (newest, as_many, capacity) = last_n-drop_last_n ring n in
    record { newest = newest; as_many = omega (arith, as_many, inside); capacity = capacity }

module _ {W : Type 0} (host : Host W) (cfg : Config) (without : cfg.has_ring ≡ false) where
  path_of-line_of : (path : String) (r : Result Value) → path_of_line (line_of host path r) ≡ path
  path_of-line_of path (ok v) = refl
  path_of-line_of path (err e) = refl

  restore-ring :
      (e : CheckpointEntry) (s : State W)
      → ((restore host (some cfg) e s).1.ring ≡ s.ring)
        × (path_of_line (restore host (some cfg) e s).0 ≡ e.path)
  unfolding restore
  restore-ring e s = elim (Bool-cases e.existed) [
    | inl there ↦ rw there (
      apply-ring_without host cfg without (restore_decision host e s.world) s,
      path_of-line_of e.path (apply host cfg (restore_decision host e s.world) s).0,
    )
    | inr new ↦ rw new (refl, refl)
  ]

  restore_all-ring :
      (es : List CheckpointEntry) (s : State W)
      → ((restore_all host (some cfg) es s).1.ring ≡ s.ring)
        × (map path_of_line (restore_all host (some cfg) es s).0 ≡ map (λ e. e.path) es)
  unfolding restore_all
  restore_all-ring [] s = (refl, refl)
  restore_all-ring (e ∷ es) s =
      let t = (restore host (some cfg) e s).1 in
      let (ring, paths) = restore_all-ring es t in
      let (same, path) = restore-ring e s in (ring ∙ same, λ i. path i ∷ paths i)

module _ {W : Type 0} (host : Host W) (n : ℕ) (s : State W) (positive : 1 ≤ n)
    (inside : n ≤ length s.ring.entries) where
  pub rewind_steps_lem :
      (rt : Option Config)
      → rewind_steps host rt n s ≡ (
          let done = restore_all host rt (last_n s.ring n) s in
          (report done.0, record done.1 { ring = drop_last_n done.1.ring n }))
  unfolding rewind_steps
  rewind_steps_lem rt = ground arith

  -- `/rewind n` within range reports one line for each of the n newest checkpoints, newest first,
  -- and takes exactly those from the ring, whether or not their files could be restored: the ring
  -- after holds the other checkpoints, in order.
  pub rewind_steps-consumes :
      (session : Config) (root : String)
      → (lines : List Line) × ((taken : List CheckpointEntry) × ((rewind_steps host
              (some (write_runtime session root))
              n
              s).0
            ≡ report lines)
          × (map path_of_line lines ≡ map (λ e. e.path) taken)
          × Took n s.ring taken (rewind_steps host (some (write_runtime session root)) n s).1.ring)
  rewind_steps-consumes session root =
      let cfg = write_runtime session root in
      let whole = rewind_steps_lem (some cfg) in
      let (ring, paths) = restore_all-ring host cfg refl (last_n s.ring n) s in
      let left = ap (λ p. p.1.ring) whole ∙ ap (λ r. drop_last_n r n) ring in
      (
        (restore_all host (some cfg) (last_n s.ring n) s).0,
        (
          last_n s.ring n,
          ap (λ p. p.0) whole,
          paths,
          subst (λ r. Took n s.ring (last_n s.ring n) r) (sym left) (last_n-Took s.ring n inside),
        ),
      )

-- The line for an entry in plan mode.
abbrev pub plan_line : CheckpointEntry → Line
plan_line e = if e.existed then restored e.path else created e.path

module _ {W : Type 0} (host : Host W) (session : Config) (root : String) where
  abbrev planning : Config
  planning = write_runtime (with_mode Mode.plan session) root

  restore-plan :
      (e : CheckpointEntry) (s : State W)
      → ((restore host (some planning) e s).0 ≡ plan_line e)
        × ((restore host (some planning) e s).1.world ≡ s.world)
  unfolding restore
  restore-plan e s = elim (Bool-cases e.existed) [
    | inl there ↦
        let (returned, same) =
          apply-plan_withheld host planning (restore_decision host e s.world) s refl in
        rw there (ap (line_of host e.path) returned, same.world)
    | inr new ↦ rw new (refl, refl)
  ]

  restore_all-plan :
      (es : List CheckpointEntry) (s : State W)
      → ((restore_all host (some planning) es s).0 ≡ map plan_line es)
        × ((restore_all host (some planning) es s).1.world ≡ s.world)
  unfolding restore_all
  restore_all-plan [] s = (refl, refl)
  restore_all-plan (e ∷ es) s =
      let t = (restore host (some planning) e s).1 in
      let (lines, world) = restore_all-plan es t in
      let (line, same) = restore-plan e s in (λ i. line i ∷ lines i, world ∙ same)

  -- In plan mode `/rewind n` within range reports every existing file as restored and writes nothing
  -- to the world; it takes the n newest checkpoints from the ring all the same, and the ring after
  -- holds the others, in order.
  pub rewind_steps-plan :
      (n : ℕ) (s : State W)
      → 1 ≤ n
      → n ≤ length s.ring.entries
      → (taken : List CheckpointEntry) × ((rewind_steps host (some planning) n s).0
          ≡ report (map plan_line taken))
        × ((rewind_steps host (some planning) n s).1.world ≡ s.world)
        × Took n s.ring taken (rewind_steps host (some planning) n s).1.ring
  rewind_steps-plan n s positive inside =
      let whole = rewind_steps_lem host n s positive inside (some planning) in
      let (lines, world) = restore_all-plan (last_n s.ring n) s in
      let (ring, paths) = restore_all-ring host planning refl (last_n s.ring n) s in
      let left = ap (λ p. p.1.ring) whole ∙ ap (λ r. drop_last_n r n) ring in
      (
        last_n s.ring n,
        ap (λ p. p.0) whole ∙ ap report lines,
        ap (λ p. p.1.world) whole ∙ world,
        subst (λ r. Took n s.ring (last_n s.ring n) r) (sym left) (last_n-Took s.ring n inside),
      )
