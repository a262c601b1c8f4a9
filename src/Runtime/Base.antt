-- ===== src/Runtime/Base.antt =====
-- The data of `Runtime` in harness/coding_loop.py: decisions, the interface to the gate, the
-- executor and the host, the configuration and the state, and the event stream.
use jaros_code.Prelude.{
  ℕ, ◌+◌, String, ◌≡◌, Bool, Option, List, [], ◌∷◌, ◌++◌, arith, str_eq, eq_iff, if◌then◌else◌,
}
use jaros_code.Value.{Value}
use jaros_code.Exec.{Exec, modify}
use jaros_code.Permissions.{PermissionRule, Mode}
use jaros_code.CheckpointRing.{CheckpointRing}
use jaros_code.Hooks.{HooksConfig}

-- What `create_decision` of the Jaros library holds.
pub record Decision : Type 0 where
  pub id : String
  pub source : String
  pub type : String
  pub payload : Value

-- `os.path.isfile` and `read_text` together
pub data FileRead : Type 0 where
  absent : FileRead
  contents : String → FileRead
  unreadable : FileRead

-- What `executor.apply` does with a decision: its output, the reason of a refusal, or an exception.
pub data Outcome : Type 0 where
  applied : Value → Outcome
  refused : String → Outcome
  raised : String → Outcome

-- The code that is not in the repository, over the outside world `W`: the gate (`none` where it
-- accepts), the executor with its decision log, file reads, the interactive prompt (`none` where
-- it raises), `fnmatch`, `str` and `repr`, fresh hexadecimal ids and the clock.
pub record Host (W : Type 0) : Type 0 where
  pub gate : Decision → W → Option String
  pub execute : Decision → W → Outcome × W
  pub read_file : String → W → FileRead
  pub ask : String → Option String → W → Option Bool
  pub glob : String → String → Bool
  pub show : Value → String
  pub show_exit_code : Option Value → String
  pub repr : String → String
  pub fresh_id : W → String
  pub now : W → ℕ

-- The attributes of a `Runtime` that `apply` reads and never writes.
pub record Config : Type 0 where
  pub root : Option String
  pub listens : Bool
  pub hooks_config : HooksConfig
  pub mode : Mode
  pub permission_rules : List PermissionRule
  pub has_prompt : Bool
  pub has_ring : Bool
  pub tool_allowlist : Option (List String)

-- The events of `_emit`, by their phase.
pub data Notice : Type 0 where
  planned : (type : String) → Value → Notice
  call : (type : String) → Value → (source : String) → Notice
  failed : (type reason : String) → Notice
  result : (type : String) → Value → Notice

abbrev pub Counts : Type 0
Counts = List (String × ℕ)

pub record State (W : Type 0) : Type 0 where
  pub world : W
  pub ring : CheckpointRing
  pub tool_usage : Counts
  pub wiring_usage : Counts
  pub notices : List Notice

-- `counter[key]`
unfoldable pub count : String → Counts → ℕ
count k [] = 0
count k ((j, n) ∷ m) = if str_eq j k then n else count k m

-- `counter[key] += 1`
unfoldable pub increment : String → Counts → Counts
increment k [] = (k, 1) ∷ []
increment k ((j, n) ∷ m) = if str_eq j k then (j, n + 1) ∷ m else (j, n) ∷ increment k m

pub count-increment :
    (k j : String) (m : Counts)
    → count j (increment k m) ≡ (if str_eq k j then count j m + 1 else count j m)
unfolding count increment
count-increment k j [] = ground arith
count-increment k j ((i, n) ∷ m) =
    ground (arith, eq_iff i k, eq_iff i j, eq_iff k j, count-increment k j m)

-- `_emit`
abbrev pub emit : {W : Type 0} → Config → Notice → Exec (State W) (Unit {0})
emit cfg notice =
    modify λ s. record s { notices = if cfg.listens then s.notices ++ notice ∷ [] else s.notices }
