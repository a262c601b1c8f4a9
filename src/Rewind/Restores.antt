-- ===== src/Rewind/Restores.antt =====
-- What `/rewind` of harness/cli.py restores, and what its report says of it.
use jaros_code.Prelude.{
  ℕ, suc, ◌≤◌, ◌≡◌, refl, ap, sym, ◌∙◌, String, Bool, true, false, ◌&&◌, some, List, [], ◌∷◌,
  length, Bool-cases, Option-cases, inl, inr, if◌then◌else◌,
}
use jaros_code.Value.{Value}
use jaros_code.Exec.{Result, ok, err}
use jaros_code.CheckpointRing.{CheckpointEntry, last_n, drop_last_n}
use jaros_code.Runtime.Base.{Decision, FileRead, contents, Config, Host, State}
use jaros_code.Runtime.{stamp, is_withheld, apply}
use jaros_code.Runtime.Refusals.{not_withheld}
use jaros_code.Runtime.World.{
  quiet, carry_out-world, is_applied, lands, returns, carry_out-returns, carry_out-refused_world,
}
use jaros_code.Runtime.Verdict.{verdict}
use jaros_code.Rewind.{
  Line, created, no_runtime, restored, failed, report, content_of, restore_decision, line_of,
  restore, restore_all, rewind_steps,
}
use jaros_code.Rewind.Consumes.{rewind_steps_lem, Took, last_n-Took}

abbrev pub is_restored : Line → Bool
is_restored (created path) = false
is_restored (no_runtime path) = false
is_restored (restored path) = true
is_restored (failed path e) = false

-- What a file reads as after the entries are handled in the given order with the given lines:
-- only a line that says so restores. `same_file` is whether two paths name one file.
abbrev pub restored_read :
    (String → String → Bool) → List CheckpointEntry → List Line → String → FileRead → FileRead
restored_read same_file [] lines path now = now
restored_read same_file (e ∷ es) [] path now = now
restored_read same_file (e ∷ es) (line ∷ lines) path now = restored_read same_file es lines path (
    if is_restored line && same_file e.path path
    then contents (content_of e.before_content)
    else now)

module _ {W : Type 0} (host : Host W) (cfg : Config) (same_file : String → String → Bool) where
  abbrev write_of : CheckpointEntry → W → Decision
  write_of e w = stamp host cfg.root (restore_decision host e w)

  -- What is asked of one restoring write: it is not withheld for plan mode, and the executor, where
  -- it applies the write, puts the content into that file and no other, and where it refuses or
  -- raises, changes no file.
  pub record Writes (e : CheckpointEntry) (w : W) : Type 0 where
    pub acts : is_withheld host cfg (write_of e w) ≡ false
    pub reads :
        (path : String)
        → host.read_file path (host.execute (write_of e w) w).1 ≡ (
            if is_applied (host.execute (write_of e w) w).0 && same_file e.path path
            then contents (content_of e.before_content)
            else host.read_file path w)

  -- The same of each write of a run over the entries, in the world that it meets.
  abbrev pub WritesAll : List CheckpointEntry → State W → Type 0
  WritesAll [] s = Unit
  WritesAll (e ∷ es) s =
      (e.existed ≡ true → Writes e s.world) × WritesAll es (restore host (some cfg) e s).1

line_of-restored :
    {W : Type 0} (host : Host W) (path : String) (r : Result Value)
    → is_restored (line_of host path r) ≡ returns r
line_of-restored host path (ok v) = refl
line_of-restored host path (err e) = refl

module _ {W : Type 0} (host : Host W) (cfg : Config) (same_file : String → String → Bool) where
  abbrev read_if : Bool → CheckpointEntry → String → W → FileRead
  read_if wrote e path w =
      if wrote && same_file e.path path
      then contents (content_of e.before_content)
      else host.read_file path w

  applied_read :
      (e : CheckpointEntry) (s : State W) (path : String)
      → Writes host (quiet cfg) same_file e s.world
      → let ran = apply host (quiet cfg) (restore_decision host e s.world) s in
        host.read_file path ran.1.world ≡ read_if (returns ran.0) e path s.world
  applied_read e s path writes =
      let d = restore_decision host e s.world in
      let sd = stamp host cfg.root d in
      let ran = host.execute sd s.world in
      let whole = not_withheld host (quiet cfg) d s writes.acts in
      let result = ap (λ p. returns p.0) whole ∙ carry_out-returns host cfg sd s in
      elim (Option-cases (verdict host (quiet cfg) sd s.world)) [
        | inl passes ↦
            let wrote : returns (apply host (quiet cfg) d s).0 ≡ is_applied ran.0 =
              result ∙ ap (λ v. lands v ran.0) passes in
            ap (λ p. host.read_file path p.1.world) whole
            ∙ ap (λ w. host.read_file path w) (carry_out-world host cfg sd s passes)
            ∙ writes.reads path
            ∙ ap (λ b. read_if b e path s.world) (sym wrote)
        | inr (r, refuses) ↦
            let kept : returns (apply host (quiet cfg) d s).0 ≡ false =
              result ∙ ap (λ v. lands v ran.0) refuses in
            ap (λ p. host.read_file path p.1.world) whole
            ∙ ap (λ w. host.read_file path w) (carry_out-refused_world host cfg sd s r refuses)
            ∙ ap (λ b. read_if b e path s.world) (sym kept)
      ]

  restore_read :
      (e : CheckpointEntry) (s : State W) (path : String)
      → (e.existed ≡ true → Writes host (quiet cfg) same_file e s.world)
      → let done = restore host (some (quiet cfg)) e s in
        host.read_file path done.1.world ≡ read_if (is_restored done.0) e path s.world
  unfolding restore
  restore_read e s path writes = elim (Bool-cases e.existed) [
    | inl there ↦
        let d = restore_decision host e s.world in
        rw there (
          applied_read e s path (writes there)
          ∙ ap (λ b. read_if b e path s.world)
              (sym (line_of-restored host e.path (apply host (quiet cfg) d s).0)))
    | inr new ↦ rw new refl
  ]

  restore_all_read :
      (es : List CheckpointEntry) (s : State W) (path : String)
      → WritesAll host (quiet cfg) same_file es s
      → let done = restore_all host (some (quiet cfg)) es s in
        (host.read_file path done.1.world
          ≡ restored_read same_file es done.0 path (host.read_file path s.world))
        × (length done.0 ≡ length es)
  unfolding restore_all
  restore_all_read [] s path writes = (refl, refl)
  restore_all_read (e ∷ es) s path writes =
      let first = restore host (some (quiet cfg)) e s in
      let rest = restore_all_read es first.1 path writes.1 in
      (
        rest.0
            ∙ ap
                (restored_read same_file es (restore_all host (some (quiet cfg)) es first.1).0 path)
                (restore_read e s path writes.0),
        ap suc rest.1,
      )

  -- Where no hook is configured, and each restoring write of the run either is applied and puts its
  -- content into its file alone, or is refused or raises and changes no file: after `/rewind n`
  -- within range each file reads as the report says, one line for each of the n newest checkpoints.
  -- It reads as the oldest checkpoint of that file whose line says restored, and as before where
  -- there is none; so a write that the gate, the rules or the executor refuse is never reported as
  -- restored, and one that is reported is in the file.
  pub rewind_steps-restores :
      (n : ℕ) (s : State W)
      → 1 ≤ n
      → n ≤ length s.ring.entries
      → WritesAll host (quiet cfg) same_file (last_n s.ring n) s
      → (taken : List CheckpointEntry) × ((lines : List Line) × ((rewind_steps host
              (some (quiet cfg))
              n
              s).0
            ≡ report lines)
          × (length lines ≡ n)
          × Took n s.ring taken (drop_last_n s.ring n)
          × ((path : String)
              → host.read_file path (rewind_steps host (some (quiet cfg)) n s).1.world
                ≡ restored_read same_file taken lines path (host.read_file path s.world)))
  rewind_steps-restores n s positive inside writes =
      let whole = rewind_steps_lem host n s positive inside (some (quiet cfg)) in
      let took = last_n-Took s.ring n inside in
      let lines = (restore_all host (some (quiet cfg)) (last_n s.ring n) s).0 in
      (
        last_n s.ring n,
        (
          lines,
          ap (λ p. p.0) whole,
          (restore_all_read (last_n s.ring n) s "" writes).1 ∙ took.as_many,
          took,
          λ path.
              ap (λ p. host.read_file path p.1.world) whole
              ∙ (restore_all_read (last_n s.ring n) s path writes).0,
        ),
      )
