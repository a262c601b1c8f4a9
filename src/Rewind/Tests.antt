-- ===== src/Rewind/Tests.antt =====
-- Tests of `/rewind` of harness/cli.py on a host with one file per path, and instances of the
-- theorems.
use jaros_code.Prelude.{
  String, ◌≡◌, refl, true, false, Option, none, some, List, [], ◌∷◌, map, length, str_eq, arith,
  if◌then◌else◌,
}
use jaros_code.Value.{Value, null, str, object, get}
use jaros_code.Permissions.{Mode, decide, resolve_decision_arg}
use jaros_code.CheckpointRing.{CheckpointEntry, last_n, drop_last_n}
use jaros_code.Runtime.Base.{
  Decision, FileRead, contents, Outcome, applied, refused, Host, Config, State,
}
use jaros_code.Runtime.{stamp, apply, carry_out, pre_hooks, post_hooks, guarded, execute}
use jaros_code.Runtime.World.{silent, quiet}
use jaros_code.Runtime.Refusals.{with_mode}
use jaros_code.Runtime.Verdict.{verdict}
use jaros_code.Rewind.{
  steps, backwards, no_number, checkpoint, parse_target, Line, report, out_of_range, write_runtime,
  restore, rewind_steps, cmd_rewind,
}
use jaros_code.Rewind.Consumes.{
  Took, path_of_line, plan_line, rewind_steps-consumes, rewind_steps-plan,
}
use jaros_code.Rewind.Restores.{WritesAll, restored_read, rewind_steps-restores}

abbrev Files : Type 0
Files = String → FileRead

abbrev text_of : Option Value → String
text_of (some (str s)) = s
text_of _ = ""

abbrev write_payload : Value → Files → Files
write_payload (object fs) files path =
    if str_eq (text_of (get fs "path")) path
    then contents (text_of (get fs "content"))
    else files path
write_payload _ files path = files path

-- A write without a path is refused.
abbrev path_in : Value → String
path_in (object fs) = text_of (get fs "path")
path_in _ = ""

abbrev run_write : Decision → Files → Outcome × Files
run_write d w =
    if str_eq (path_in d.payload) ""
    then (refused "no path", w)
    else (applied null, write_payload d.payload w)

abbrev host : Host Files
host = record {
  gate = λ d w. none;
  execute = run_write;
  read_file = λ path w. w path;
  ask = λ type arg w. none;
  glob = λ value pattern. str_eq value pattern;
  show = λ v. "?";
  show_exit_code = λ v. "?";
  repr = λ s. s;
  fresh_id = λ w. "0a1b2c3d";
  now = λ w. 0;
}

abbrev session : Config
session = record {
  root = none;
  listens = false;
  hooks_config = silent;
  mode = Mode.default;
  permission_rules = [];
  has_prompt = false;
  has_ring = true;
  tool_allowlist = none;
}

abbrev edit : String → String → String → CheckpointEntry
edit id path before = record {
  id = id;
  decision_type = "code.write_file";
  path = path;
  existed = true;
  before_content = some before;
  source = "cli";
  ts = 0;
}

abbrev start : State Files
start = record {
  world = λ path. contents "now";
  ring = record {
    maxlen = 10;
    entries = edit "12345678" "a.py" "one" ∷ edit "00ff00ff" "a.py" "two" ∷ [];
  };
  tool_usage = [];
  wiring_usage = [];
  notices = [];
}

targets :
    (parse_target " 3 " ≡ steps 3)
    × (parse_target "-3" ≡ backwards)
    × (parse_target "--3" ≡ no_number)
    × (parse_target "00ff" ≡ checkpoint "00ff")
unfolding parse_target
targets = (refl, refl, refl, refl)

-- An id of decimal digits alone is read as a number of steps.
digit_id : (cmd_rewind host (some session) "12345678" start).0 ≡ out_of_range
unfolding cmd_rewind parse_target
digit_id = refl

start-WritesAll : WritesAll host (quiet session) str_eq (last_n start.ring 2) start
unfolding last_n restore verdict stamp decide resolve_decision_arg get apply carry_out pre_hooks
    post_hooks guarded execute
start-WritesAll = (
  λ h. record { acts = refl; reads = λ path. refl },
  (λ h. record { acts = refl; reads = λ path. refl }, tt),
)

rewind_steps-restores_example :
    (taken : List CheckpointEntry) × ((lines : List Line) × ((rewind_steps host
          (some (quiet session))
          2
          start).0
        ≡ report lines)
      × (length lines ≡ 2)
      × Took 2 start.ring taken (drop_last_n start.ring 2)
      × ((path : String)
          → host.read_file path (rewind_steps host (some (quiet session)) 2 start).1.world
            ≡ restored_read str_eq taken lines path (host.read_file path start.world)))
rewind_steps-restores_example =
    rewind_steps-restores host session str_eq 2 start (omega arith) (omega arith) start-WritesAll

rewind_steps-consumes_example :
    (lines : List Line) × ((taken : List CheckpointEntry) × ((rewind_steps host
          (some (write_runtime session "/repo"))
          1
          start).0
        ≡ report lines)
      × (map path_of_line lines ≡ map (λ e. e.path) taken)
      × Took 1 start.ring taken
          (rewind_steps host (some (write_runtime session "/repo")) 1 start).1.ring)
rewind_steps-consumes_example =
    rewind_steps-consumes host 1 start (omega arith) (omega arith) session "/repo"

rewind_steps-plan_example :
    let planning = write_runtime (with_mode Mode.plan session) "/repo" in
    (taken : List CheckpointEntry) × ((rewind_steps host (some planning) 1 start).0
      ≡ report (map plan_line taken))
    × ((rewind_steps host (some planning) 1 start).1.world ≡ start.world)
    × Took 1 start.ring taken (rewind_steps host (some planning) 1 start).1.ring
rewind_steps-plan_example =
    rewind_steps-plan host session "/repo" 1 start (omega arith) (omega arith)
