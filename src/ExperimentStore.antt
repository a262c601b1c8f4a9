-- ===== src/ExperimentStore.antt =====
-- harness/experiment_store.py: the per-repository experiments in `.jaros/experiments.jsonl`. The
-- subprocess that an experiment runs is a parameter, a function of the command and of the outside
-- world; what it did is a `Process`.
pub mod Honesty
pub mod Defining
mod Tests
use Prim.Native.String.{[] as nil, ◌∷◌ as cons}
use jaros_code.Prelude.{
  ℕ, zero, suc, ◌+◌, ◌-◌, String, Bool, true, false, not, ◌||◌, Option, none, some, List, [], ◌∷◌,
  ◌++◌, ltb, if◌then◌else◌,
}
use jaros_code.Text.{size, ◌<>◌, is_empty, strip}
use jaros_code.Value.{Value, num, str, Fields, end, entry, get, put, is_text_option}
use jaros_code.Exec.{Result, ok, err}
use jaros_code.JsonLines.{
  FileState, WriteOutcome, Json, load_all, slice_last, change_first, Store, add_to, save_update,
}

abbrev pub max_experiments : ℕ
max_experiments = 500

abbrev pub max_output_chars : ℕ
max_output_chars = 4000

-- The keys that a stored experiment must have.
abbrev pub experiment_keys : List String
experiment_keys = "id" ∷ "hypothesis" ∷ "run_cmd" ∷ []

unfoldable pub new_experiment : (id hypothesis run_cmd measure : String) → Value → Fields
new_experiment id hypothesis run_cmd measure now = entry "id" (str id) (
    entry "hypothesis" (str hypothesis) (
      entry "run_cmd" (str run_cmd)
        (entry "measure" (str measure) (entry "status" (str "defined") (entry "ts" now end)))))

-- How the subprocess ended.
pub data Process : Type 0 where
  -- `Popen` raises `OSError`
  not_started : String → Process
  -- the return code, by its sign and absolute value, and the two outputs
  exited : (negative : Bool) (code : ℕ) (stdout stderr : String) → Process
  -- the process is killed
  timed_out : Process
  -- any other exception
  guard_error : String → Process

-- `s[n:]`
unfoldable pub skip : ℕ → String → String
skip zero s = s
skip (suc n) nil = nil
skip (suc n) (cons c s) = skip n s

-- The tail that is recorded.
unfoldable pub bounded_output : String → String
bounded_output s = if ltb max_output_chars (size s) then skip (size s - max_output_chars) s else s

abbrev failure : Value
failure = num false 1 0

abbrev pub has_id : String → Fields → Bool
has_id id r = is_text_option (get r "id") id

-- The first record with the id.
unfoldable pub find_first : (Fields → Bool) → List Fields → Option Fields
find_first test [] = none
find_first test (r ∷ rs) = if test r then some r else find_first test rs

abbrev pub listed : ℕ → Result (List Fields) → List Fields
listed cap (err e) = []
listed cap (ok records) = slice_last cap records

-- What `_execute` returns and, for `guard_error`, what `run_experiment` makes of an exception:
-- `show_timeout` and `show` are the two parts of the message of a timeout.
module _ (show_timeout : String) (show : Option Value → String) where
  unfoldable pub exit_code_and_output : Option Value → Process → Value × String
  exit_code_and_output run_cmd (not_started message) =
      (failure, "failed to start experiment command: " <> message)
  exit_code_and_output run_cmd (exited negative code stdout stderr) =
      (num negative code 0, stdout <> stderr)
  exit_code_and_output run_cmd timed_out = (
    failure,
    "experiment command timed out after "
        <> show_timeout
        <> "s (real guard failure, not a fabricated pass): "
        <> show run_cmd,
  )
  exit_code_and_output run_cmd (guard_error message) =
      (failure, "experiment run guard error (treated as failure, never fabricated): " <> message)

  -- The assignments to the record.
  unfoldable pub recorded : Process → Value → Fields → Fields
  unfolding exit_code_and_output
  recorded process now target =
      let result = exit_code_and_output (get target "run_cmd") process in
      put
        (put (put (put target "exit_code" result.0) "output" (str (bounded_output result.1)))
          "status" (str "run"))
        "ran_ts" now

module _ (json : Json) where
  unfoldable pub define_experiment :
      FileState
      → (hypothesis run_cmd measure id : String) → Value
      → WriteOutcome
      → Store (Option Fields)
  define_experiment file hypothesis run_cmd measure id now outcome =
      if is_empty (strip hypothesis) || is_empty (strip run_cmd)
      then (ok none, file)
      else add_to json experiment_keys max_experiments file
          (new_experiment id (strip hypothesis) (strip run_cmd) (strip measure) now) outcome
          (load_all json experiment_keys file)

  unfoldable pub list_experiments : FileState → ℕ → List Fields
  list_experiments file cap = listed cap (load_all json experiment_keys file)

  module _ {W : Type 0} (show_timeout : String) (show : Option Value → String)
      (run : Option Value → W → Process × W) where
    abbrev run_found :
        FileState
        → (Fields → Bool)
        → List Fields
        → Value
        → WriteOutcome
        → Option Fields
        → W
        → Store (Option Fields) × W
    run_found file test records now outcome none w = ((ok none, file), w)
    run_found file test records now outcome (some target) w =
        let ran = run (get target "run_cmd") w in
        (
          save_update json experiment_keys file outcome
              (change_first test (recorded show_timeout show ran.0 now) records),
          ran.1,
        )

    abbrev pub run_in :
        FileState
        → (Fields → Bool)
        → Value
        → WriteOutcome
        → Result (List Fields)
        → W
        → Store (Option Fields) × W
    run_in file test now outcome (err e) w = ((err e, file), w)
    run_in file test now outcome (ok records) w =
        run_found file test records now outcome (find_first test records) w

    unfoldable pub run_experiment :
        FileState → String → Value → WriteOutcome → W → Store (Option Fields) × W
    run_experiment file id now outcome w =
        if is_empty (strip id)
        then ((ok none, file), w)
        else run_in file (has_id (strip id)) now outcome (load_all json experiment_keys file) w
