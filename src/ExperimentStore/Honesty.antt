-- ===== src/ExperimentStore/Honesty.antt =====
-- What `run_experiment` of harness/experiment_store.py records, and when it runs nothing.
use Prim.Native.String.{[] as nil, ◌∷◌ as cons}
use mathlib.Core.Path.{subst}
use jaros_code.Prelude.{
  ℕ, zero, suc, ◌-◌, ◌≤◌, String, ◌≡◌, refl, ap, ◌∙◌, Bool, false, not, Option, none, some, List,
  [], ◌∷◌, All, arith, inl, inr, Bool-cases, ltb, ◌==◌, str_eq, if◌then◌else◌,
}
use jaros_code.Text.{is_empty, strip}
use jaros_code.Value.{Value, str, Fields, get, put, get-put, truthy, truthy_option}
use jaros_code.Exec.{ok}
use jaros_code.JsonLines.{
  FileState, written, WriteOutcome, Json, load_all, write_all, change_first, save_update,
}
use jaros_code.JsonLines.RoundTrip.{
  Survives, HasKeys, load_all-dumps, Changed, change_first-Changed,
}
use jaros_code.JsonLines.Storing.{loaded-HasKeys, IsChanged-HasKeys}
use jaros_code.Text.{size}
use jaros_code.ExperimentStore.{
  experiment_keys, max_output_chars, Process, not_started, exited, timed_out, guard_error, skip,
  bounded_output, has_id, find_first, exit_code_and_output, recorded, run_experiment,
}

size-skip : (n : ℕ) (s : String) → size (skip n s) ≡ size s - n
unfolding size skip
size-skip zero s = omega arith
size-skip (suc n) nil = omega arith
size-skip (suc n) (cons c s) = omega (arith, size-skip n s)

size-bounded_output : (s : String) → size (bounded_output s) ≤ max_output_chars
unfolding bounded_output
size-bounded_output s = elim (Bool-cases (ltb max_output_chars (size s))) [
  | inl long ↦ rw (long, size-skip (size s - max_output_chars) s) (ground arith)
  | inr short ↦ rw short (ground arith)
]

-- The process ended by itself with return code 0.
abbrev pub succeeds : Process → Bool
succeeds (exited negative code stdout stderr) = code == 0
succeeds _ = false

abbrev pub IsShort : Option Value → Type 0
IsShort (some (str s)) = size s ≤ max_output_chars
IsShort _ = zero ≡ suc zero

-- What the record of a run says of the process, and what it keeps of the experiment.
pub record IsHonest (process : Process) (target task : Fields) : Type 0 where
  pub exit_code : truthy_option (get task "exit_code") ≡ not (succeeds process)
  pub output : IsShort (get task "output")
  pub status : get task "status" ≡ some (str "run")
  pub id : get task "id" ≡ get target "id"
  pub hypothesis : get task "hypothesis" ≡ get target "hypothesis"
  pub run_cmd : get task "run_cmd" ≡ get target "run_cmd"
  pub measure : get task "measure" ≡ get target "measure"

-- The list with a record in place of the first one with a property.
unfoldable pub replace_first : (Fields → Bool) → Fields → List Fields → List Fields
replace_first test new [] = []
replace_first test new (r ∷ rs) = if test r then new ∷ rs else r ∷ replace_first test new rs

find_first-misses :
    (test : Fields → Bool) (rs : List Fields)
    → All (λ r. test r ≡ false) rs
    → find_first test rs ≡ none
unfolding find_first
find_first-misses test [] h = refl
find_first-misses test (r ∷ rs) h = rw (h.0, find_first-misses test rs h.1)

change_first-find_first :
    (test : Fields → Bool) (change : Fields → Fields) (rs : List Fields) (target : Fields)
    → find_first test rs ≡ some target
    → change_first test change rs ≡ some (change target, replace_first test (change target) rs)
unfolding change_first find_first replace_first
change_first-find_first test change [] target h = absurd (cc)
change_first-find_first test change (r ∷ rs) target h = elim (Bool-cases (test r)) [
  | inl hit ↦ grind arith
  | inr miss ↦ grind (arith, change_first-find_first test change rs target)
]

module _ (show_timeout : String) (show : Option Value → String) where
  exit_code-succeeds :
      (process : Process) (run_cmd : Option Value)
      → truthy (exit_code_and_output show_timeout show run_cmd process).0 ≡ not (succeeds process)
  unfolding exit_code_and_output truthy
  exit_code-succeeds (not_started message) run_cmd = refl
  exit_code-succeeds (exited negative code stdout stderr) run_cmd = refl
  exit_code-succeeds timed_out run_cmd = refl
  exit_code-succeeds (guard_error message) run_cmd = refl

module _ (show_timeout : String) (show : Option Value → String) (process : Process)
    (now : Value) where
  recorded-get :
      (target : Fields) (k : String)
      → get (recorded show_timeout show process now target) k ≡ (
          if str_eq "ran_ts" k
          then some now
          else if str_eq "status" k
          then some (str "run")
          else if str_eq "output" k
          then some (
              str (
                bounded_output
                  (exit_code_and_output show_timeout show (get target "run_cmd") process).1))
          else if str_eq "exit_code" k
          then some (exit_code_and_output show_timeout show (get target "run_cmd") process).0
          else get target k)
  unfolding recorded
  recorded-get target k =
      let result = exit_code_and_output show_timeout show (get target "run_cmd") process in
      let one = put target "exit_code" result.0 in
      let two = put one "output" (str (bounded_output result.1)) in
      let three = put two "status" (str "run") in
      rw (
        get-put three "ran_ts" k now,
        get-put two "status" k (str "run"),
        get-put one "output" k (str (bounded_output result.1)),
        get-put target "exit_code" k result.0,
      )

  recorded-IsHonest :
      (target : Fields) → IsHonest process target (recorded show_timeout show process now target)
  recorded-IsHonest target =
      let text = (exit_code_and_output show_timeout show (get target "run_cmd") process).1 in
      record {
        exit_code =
            ap truthy_option (recorded-get target "exit_code")
            ∙ exit_code-succeeds show_timeout show process (get target "run_cmd");
        output = rw (recorded-get target "output") (size-bounded_output text);
        status = recorded-get target "status";
        id = recorded-get target "id";
        hypothesis = recorded-get target "hypothesis";
        run_cmd = recorded-get target "run_cmd";
        measure = recorded-get target "measure";
      }

module _ {W : Type 0} (json : Json) (show_timeout : String) (show : Option Value → String)
    (run : Option Value → W → Process × W) where
  -- The record that a run of an experiment leaves.
  abbrev pub outcome_of : Fields → Value → W → Fields
  outcome_of target now w = recorded show_timeout show (run (get target "run_cmd") w).0 now target

  recorded-HasKeys :
      (process : Process) (now : Value) (r : Fields)
      → HasKeys json experiment_keys r
      → HasKeys json experiment_keys (recorded show_timeout show process now r)
  recorded-HasKeys process now r h =
      rw
        (
          recorded-get show_timeout show process now r "id",
          recorded-get show_timeout show process now r "hypothesis",
          recorded-get show_timeout show process now r "run_cmd",
        )
        h

  run_experiment-eq :
      (file : FileState) (records : List Fields) (id : String) (now : Value) (target : Fields)
      (outcome : WriteOutcome) (w : W)
      → is_empty (strip id) ≡ false
      → load_all json experiment_keys file ≡ ok records
      → find_first (has_id (strip id)) records ≡ some target
      → run_experiment json show_timeout show run file id now outcome w ≡ (
        save_update json experiment_keys file outcome (
            some (
              outcome_of target now w,
              replace_first (has_id (strip id)) (outcome_of target now w) records,
            )),
        (run (get target "run_cmd") w).1,
      )
  unfolding run_experiment
  run_experiment-eq file records id now target outcome w named l f = rw (
    named,
    l,
    f,
    change_first-find_first (has_id (strip id))
        (recorded show_timeout show (run (get target "run_cmd") w).0 now) records target f,
  )

  replaced-HasKeys :
      (records : List Fields) (test : Fields → Bool) (now : Value) (target : Fields) (w : W)
      → All (HasKeys json experiment_keys) records
      → find_first test records ≡ some target
      → All (HasKeys json experiment_keys) (replace_first test (outcome_of target now w) records)
  replaced-HasKeys records test now target w keys f =
      let process = (run (get target "run_cmd") w).0 in
      let change = recorded show_timeout show process now in
      IsChanged-HasKeys json experiment_keys test change records (change target)
        (replace_first test (change target) records) (recorded-HasKeys process now) keys
        (subst (Changed test change records) (change_first-find_first test change records target f)
          (change_first-Changed test change records))

  -- Where a record of a readable store has the id and the write succeeds, `run_experiment` runs the
  -- command of the first such record once, and what it returns and stores in its place says that
  -- the exit code is 0 exactly where the process ended by itself with 0, has an output of at most
  -- 4000 characters and the status "run", and keeps the experiment's id, hypothesis, command and
  -- measure. The written file reads as the list with that record replaced.
  pub run_experiment-records :
      (file : FileState) (records : List Fields) (id : String) (now : Value) (target : Fields)
      (w : W)
      → is_empty (strip id) ≡ false
      → load_all json experiment_keys file ≡ ok records
      → find_first (has_id (strip id)) records ≡ some target
      → All (Survives json) (replace_first (has_id (strip id)) (outcome_of target now w) records)
      → ((run_experiment json show_timeout show run file id now written w).0.0
          ≡ ok (some (outcome_of target now w)))
        × (load_all json experiment_keys
              (run_experiment json show_timeout show run file id now written w).0.1
            ≡ ok (replace_first (has_id (strip id)) (outcome_of target now w) records))
        × ((run_experiment json show_timeout show run file id now written w).1
            ≡ (run (get target "run_cmd") w).1)
        × IsHonest (run (get target "run_cmd") w).0 target (outcome_of target now w)
  unfolding write_all
  run_experiment-records file records id now target w named l f survive =
      let e = run_experiment-eq file records id now target written w named l f in
      let keys =
        replaced-HasKeys records (has_id (strip id)) now target w
          (loaded-HasKeys json experiment_keys file records l) f in
      (
        ap (λ p. p.0.0) e,
        ap (λ p. load_all json experiment_keys p.0.1) e
            ∙ load_all-dumps json experiment_keys
                (replace_first (has_id (strip id)) (outcome_of target now w) records) survive keys,
        ap (λ p. p.1) e,
        recorded-IsHonest show_timeout show (run (get target "run_cmd") w).0 now target,
      )

  -- An id that no record of a readable store has runs nothing: the outside world and the file are as
  -- before, and there is no result.
  pub run_experiment-unknown :
      (file : FileState) (records : List Fields) (id : String) (now : Value)
      (outcome : WriteOutcome) (w : W)
      → load_all json experiment_keys file ≡ ok records
      → All (λ r. has_id (strip id) r ≡ false) records
      → run_experiment json show_timeout show run file id now outcome w ≡ ((ok none, file), w)
  unfolding run_experiment
  run_experiment-unknown file records id now outcome w l misses =
      elim (Bool-cases (is_empty (strip id))) [
        | inl blank ↦ rw blank
        | inr named ↦ rw (named, l, find_first-misses (has_id (strip id)) records misses)
      ]
