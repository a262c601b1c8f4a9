-- ===== src/Runtime/Counters.antt =====
-- The counters, the checkpoint ring and the executor in `Runtime.apply` of harness/coding_loop.py.
use jaros_code.Prelude.{
  ℕ, ◌+◌, String, ◌≡◌, refl, ap, ◌∙◌, Option, none, some, List, str_eq, if◌then◌else◌,
}
use jaros_code.Text.{◌<>◌}
use jaros_code.Value.{Value}
use jaros_code.Exec.{Result, ok, err}
use jaros_code.CheckpointRing.{CheckpointEntry, append, record_entry}
use jaros_code.Runtime.Base.{
  Decision, Outcome, applied, refused, raised, Host, Config, State, count, increment,
  count-increment, Notice,
}
use jaros_code.Runtime.{before_edit, checkpoint_path, captured, settle, execute, guarded}
use jaros_code.Runtime.Verdict.{Refusal, verdict, announced, by_verdict, guarded-verdict}

module _ {W : Type 0} (host : Host W) (cfg : Config) (d : Decision) where
  -- The ring gained one entry, with what the file held in the world before the edit.
  pub record IsCheckpointed (path : String) (s t : State W) : Type 0 where
    pub entry : CheckpointEntry
    pub kept : t.ring ≡ append s.ring entry
    pub of_path : entry.path ≡ path
    pub of_type : entry.decision_type ≡ d.type
    pub before :
        (entry.existed, entry.before_content) ≡ before_edit host (host.read_file path s.world)

  abbrev pub RingAfter : Option String → State W → State W → Type 0
  RingAfter none s t = t.ring ≡ s.ring
  RingAfter (some path) s t = IsCheckpointed path s t

  -- A call that returned: each counter went up by one at its key, and at no other.
  pub record IsCounted (s t : State W) : Type 0 where
    pub by_type :
        (j : String)
        → count j t.tool_usage
          ≡ (if str_eq d.type j then count j s.tool_usage + 1 else count j s.tool_usage)
    pub by_wiring :
        (j : String)
        → count j t.wiring_usage ≡ (
            if str_eq (d.source <> " -> " <> d.type) j
            then count j s.wiring_usage + 1
            else count j s.wiring_usage)

  -- A call that raised: the counters and the ring are untouched.
  pub record IsUncounted (s t : State W) : Type 0 where
    pub tool_usage : t.tool_usage ≡ s.tool_usage
    pub wiring_usage : t.wiring_usage ≡ s.wiring_usage
    pub ring : t.ring ≡ s.ring

  abbrev pub Effects : Option String → State W → Result Value → State W → Type 0
  Effects path s (ok output) t = IsCounted s t × RingAfter path s t
  Effects path s (err e) t = IsUncounted s t

  counted :
      (s t : State W)
      → t.tool_usage ≡ increment d.type s.tool_usage
      → t.wiring_usage ≡ increment (d.source <> " -> " <> d.type) s.wiring_usage
      → IsCounted s t
  counted s t e f = record {
    by_type = λ j. ap (count j) e ∙ count-increment d.type j s.tool_usage;
    by_wiring =
        λ j. ap (count j) f ∙ count-increment (d.source <> " -> " <> d.type) j s.wiring_usage;
  }

  checkpointed :
      (s t : State W) (path id : String) (now : ℕ)
      → (let before = before_edit host (host.read_file path s.world) in
          t.ring ≡ (record_entry s.ring id d.type path before.0 before.1 d.source now).1)
      → IsCheckpointed path s t
  unfolding record_entry
  checkpointed s t path id now e =
      let before = before_edit host (host.read_file path s.world) in
      record {
        entry = (record_entry s.ring id d.type path before.0 before.1 d.source now).0;
        kept = e;
        of_path = refl;
        of_type = refl;
        before = refl;
      }

  settle-Effects :
      (s : State W) (w : W) (n : List Notice) (path : Option String) (o : Outcome)
      → (let r =
            settle host cfg d path
              (captured host path s.world)
              o
              (record s { world = w; notices = n }) in
          Effects path s r.0 r.1)
  settle-Effects s w n path (refused reason) = record {
    tool_usage = refl;
    wiring_usage = refl;
    ring = refl;
  }
  settle-Effects s w n path (raised message) = record {
    tool_usage = refl;
    wiring_usage = refl;
    ring = refl;
  }
  settle-Effects s w n none (applied output) = (counted s _ refl refl, refl)
  settle-Effects s w n (some path) (applied output) =
      (counted s _ refl refl, checkpointed s _ path (host.fresh_id w) (host.now w) refl)

  -- What a decision past plan mode and the hooks leaves behind. If it returns, the counter of its
  -- type and that of its wiring went up by one and no other did, and the ring gained exactly the
  -- content of the edited file before the edit, where there is a path to checkpoint, and nothing
  -- otherwise. If it raises, at the gate, the rules or the executor, counters and ring are as before.
  pub guarded-Effects :
      (s : State W)
      → Effects (checkpoint_path host cfg d) s (guarded host cfg d s).0 (guarded host cfg d s).1
  unfolding execute
  guarded-Effects s = rw (guarded-verdict host cfg d s) (go (verdict host cfg d s.world))
    where
      go :
          (o : Option Refusal)
          → (let r = by_verdict host cfg d o (announced host cfg d s) in
              Effects (checkpoint_path host cfg d) s r.0 r.1)
      go none =
          settle-Effects s (host.execute d s.world).1 (announced host cfg d s).notices
            (checkpoint_path host cfg d) (host.execute d s.world).0
      go (some r) = record { tool_usage = refl; wiring_usage = refl; ring = refl }
