-- ===== src/ExperimentStore/Defining.antt =====
-- What `define_experiment` of harness/experiment_store.py stores.
use jaros_code.Prelude.{
  String, ◌≡◌, ap, ◌∙◌, false, some, List, [], ◌∷◌, ◌++◌, All, arith, length, ◌≤◌,
}
use jaros_code.Text.{is_empty, strip}
use jaros_code.Value.{Value, Fields, get, truthy}
use jaros_code.Exec.{ok}
use jaros_code.JsonLines.{FileState, written, Json, load_all, write_all, slice_last, add_to}
use jaros_code.JsonLines.RoundTrip.{
  Survives, HasKeys, load_all-dumps, All-slice_last, length-slice_last,
}
use jaros_code.JsonLines.Storing.{loaded-HasKeys, added-HasKeys}
use jaros_code.ExperimentStore.{
  experiment_keys, max_experiments, new_experiment, define_experiment, list_experiments, listed,
}

module _ (json : Json) (hypothesis run_cmd measure id : String) (now : Value) where
  -- The experiment that `define_experiment` makes.
  abbrev pub defined : Fields
  defined = new_experiment id (strip hypothesis) (strip run_cmd) (strip measure) now

  -- The records of a file after `define_experiment`.
  abbrev pub after_define : List Fields → List Fields
  after_define records = slice_last max_experiments (records ++ defined ∷ [])

  defined-HasKeys :
      is_empty (strip hypothesis) ≡ false
      → is_empty (strip run_cmd) ≡ false
      → is_empty id ≡ false
      → HasKeys json experiment_keys defined
  unfolding new_experiment truthy get
  defined-HasKeys h r i = rw (h, r, i)

  -- An experiment with hypothesis, command and id that is defined in a readable store, and whose
  -- write succeeds, is returned, and the written file reads as the former records followed by it,
  -- of which the newest 500 are kept: a listing with the default cap is that list, and no longer
  -- than 500.
  pub list_experiments-define_experiment :
      (file : FileState) (records : List Fields)
      → is_empty (strip hypothesis) ≡ false
      → is_empty (strip run_cmd) ≡ false
      → is_empty id ≡ false
      → load_all json experiment_keys file ≡ ok records
      → All (Survives json) (records ++ defined ∷ [])
      → ((define_experiment json file hypothesis run_cmd measure id now written).0
          ≡ ok (some defined))
        × (list_experiments json
              (define_experiment json file hypothesis run_cmd measure id now written).1
              max_experiments
            ≡ slice_last max_experiments (after_define records))
        × (length (after_define records) ≤ max_experiments)
  unfolding write_all list_experiments define_experiment
  list_experiments-define_experiment file records h r i l survive =
      let keys =
        added-HasKeys json experiment_keys max_experiments records defined
          (loaded-HasKeys json experiment_keys file records l) (defined-HasKeys h r i) in
      let all = All-slice_last (Survives json) max_experiments (records ++ defined ∷ []) survive in
      let e : define_experiment json file hypothesis run_cmd measure id now written
          ≡ add_to json experiment_keys max_experiments file defined written (ok records) =
        rw (h, r, l) in
      (
        ap (λ p. p.0) e,
        ap (λ p. list_experiments json p.1 max_experiments) e
            ∙ ap (listed max_experiments)
                (load_all-dumps json experiment_keys (after_define records) all keys),
        length-slice_last max_experiments (records ++ defined ∷ []) (omega arith),
      )
