-- ===== src/ExperimentStore/Tests.antt =====
-- Runs of the experiment store on a concrete `json` and process, and the theorems at those runs.
use jaros_code.Prelude.{
  ℕ, suc, String, ◌≡◌, refl, false, Option, none, some, [], ◌∷◌, str_eq, length, ◌≤◌, if◌then◌else◌,
}
use jaros_code.Text.{strip}
use jaros_code.Value.{Value, num, str, object, Fields, end, entry, get, is_text_option}
use jaros_code.Exec.{ok}
use jaros_code.JsonLines.{FileState, lines, written, Json, load_all, slice_last}
use jaros_code.JsonLines.RoundTrip.{Survives}
use jaros_code.Text.{size}
use jaros_code.ExperimentStore.{
  experiment_keys, max_experiments, Process, exited, timed_out, define_experiment, list_experiments,
  run_experiment, has_id, exit_code_and_output, recorded, find_first, bounded_output,
  new_experiment,
}
use jaros_code.ExperimentStore.Honesty.{
  IsHonest, outcome_of, replace_first, run_experiment-records, run_experiment-unknown,
}
use jaros_code.ExperimentStore.Defining.{defined, after_define, list_experiments-define_experiment}

abbrev noon : Value
noon = num false 12 0

abbrev first : Fields
first = new_experiment "a1" "caching helps" "make bench" "time" noon

abbrev second : Fields
second = new_experiment "b2" "it builds" "make" "" noon

abbrev first_run : Fields
first_run = entry "id" (str "a1") (
    entry "hypothesis" (str "caching helps") (
      entry "run_cmd" (str "make bench") (
        entry "measure" (str "time") (
          entry "status" (str "run") (
            entry "ts" noon (
              entry "exit_code" (num false 2 0)
                (entry "output" (str "no rule\n") (entry "ran_ts" noon end))))))))

abbrev name_of : Fields → String
name_of fs =
    if is_text_option (get fs "id") "b2"
    then "{b2}"
    else if is_text_option (get fs "status") "run"
    then "{a1 run}"
    else "{a1}"

abbrev read_name : String → Option Value
read_name line =
    if str_eq line "{a1}"
    then some (object first)
    else if str_eq line "{b2}"
    then some (object second)
    else if str_eq line "{a1 run}"
    then some (object first_run)
    else none

-- A `json` that knows three records.
abbrev three_records : Json
three_records = record { loads = read_name; dumps = name_of }

abbrev one_experiment : FileState
one_experiment = lines ("{a1}" ∷ [])

-- The world counts the commands that were run.
abbrev failing : Option Value → ℕ → Process × ℕ
failing run_cmd n = (exited false 2 "" "no rule\n", suc n)

abbrev shown : Option Value → String
shown v = "command"

first-Survives : Survives three_records first
unfolding strip get new_experiment
first-Survives = record { loads_dumps = refl; stripped = refl; not_blank = refl }

second-Survives : Survives three_records second
unfolding strip get new_experiment
second-Survives = record { loads_dumps = refl; stripped = refl; not_blank = refl }

first_run-Survives : Survives three_records first_run
unfolding strip get new_experiment
first_run-Survives = record { loads_dumps = refl; stripped = refl; not_blank = refl }

load_one : load_all three_records experiment_keys one_experiment ≡ ok (first ∷ [])
unfolding load_all jaros_code.JsonLines.parse_line strip get jaros_code.Value.truthy new_experiment
load_one = refl

run_record : outcome_of three_records "60" shown failing first noon 0 ≡ first_run
unfolding recorded exit_code_and_output bounded_output size get jaros_code.Value.put new_experiment
run_record = refl

timeout_text : exit_code_and_output "60" shown (some (str "make")) timed_out ≡ (
  num false 1 0,
  "experiment command timed out after 60s (real guard failure, not a fabricated pass): command",
)
unfolding exit_code_and_output
timeout_text = refl

run_experiment-records_example :
    ((run_experiment three_records "60" shown failing one_experiment "a1" noon written 0).0.0
      ≡ ok (some (outcome_of three_records "60" shown failing first noon 0)))
    × (load_all three_records experiment_keys
          (run_experiment three_records "60" shown failing one_experiment "a1" noon written 0).0.1
        ≡ ok (
            replace_first
              (has_id (strip "a1"))
              (outcome_of three_records "60" shown failing first noon 0)
              (first ∷ [])))
    × ((run_experiment three_records "60" shown failing one_experiment "a1" noon written 0).1
        ≡ (failing (get first "run_cmd") 0).1)
    × IsHonest
        (failing (get first "run_cmd") 0).0
        first
        (outcome_of three_records "60" shown failing first noon 0)
unfolding strip get new_experiment find_first recorded exit_code_and_output bounded_output size
    jaros_code.Value.put replace_first
run_experiment-records_example =
    run_experiment-records three_records "60" shown failing one_experiment (first ∷ []) "a1" noon
      first 0 refl load_one refl (first_run-Survives, tt)

run_experiment-unknown_example :
    run_experiment three_records "60" shown failing one_experiment "zz" noon written 0
    ≡ ((ok none, one_experiment), 0)
unfolding strip get new_experiment
run_experiment-unknown_example =
    run_experiment-unknown three_records "60" shown failing one_experiment (first ∷ []) "zz" noon
      written 0 load_one (refl, tt)

list_experiments-define_experiment_example :
    ((define_experiment three_records one_experiment "it builds" " make " "" "b2" noon written).0
      ≡ ok (some (defined three_records "it builds" " make " "" "b2" noon)))
    × (list_experiments three_records
          (define_experiment three_records one_experiment "it builds" " make " "" "b2" noon
            written).1
          max_experiments
        ≡ slice_last max_experiments
            (after_define three_records "it builds" " make " "" "b2" noon (first ∷ [])))
    × (length (after_define three_records "it builds" " make " "" "b2" noon (first ∷ []))
        ≤ max_experiments)
unfolding strip get new_experiment
list_experiments-define_experiment_example =
    list_experiments-define_experiment three_records "it builds" " make " "" "b2" noon
      one_experiment (first ∷ []) refl refl refl load_one (first-Survives, (second-Survives, tt))
