-- ===== src/JsonLines/Storing.antt =====
-- The required keys through an addition and through a change of one record, for the stores of
-- harness/task_store.py and harness/experiment_store.py.
use mathlib.Core.Path.{subst}
use jaros_code.Prelude.{ℕ, String, ◌≡◌, sym, Bool, List, [], ◌∷◌, ◌++◌, All, All-append, All-split}
use jaros_code.Value.{Fields}
use jaros_code.Exec.{ok}
use jaros_code.JsonLines.{FileState, Json, load_all, slice_last}
use jaros_code.JsonLines.RoundTrip.{HasKeys, OnOk, load_all-HasKeys, All-slice_last, IsChanged}

module _ (json : Json) (keys : List String) where
  pub loaded-HasKeys :
      (file : FileState) (records : List Fields)
      → load_all json keys file ≡ ok records
      → All (HasKeys json keys) records
  loaded-HasKeys file records l =
      subst (OnOk json keys (All (HasKeys json keys))) l (load_all-HasKeys json keys file)

  pub added-HasKeys :
      (max : ℕ) (records : List Fields) (new : Fields)
      → All (HasKeys json keys) records
      → HasKeys json keys new
      → All (HasKeys json keys) (slice_last max (records ++ new ∷ []))
  added-HasKeys max records new old k =
      All-slice_last (HasKeys json keys) max (records ++ new ∷ [])
        (All-append (HasKeys json keys) records (new ∷ []) old (k, tt))

  pub IsChanged-HasKeys :
      (test : Fields → Bool) (change : Fields → Fields) (records : List Fields) (found : Fields)
      (after : List Fields)
      → ((r : Fields) → HasKeys json keys r → HasKeys json keys (change r))
      → All (HasKeys json keys) records
      → IsChanged test change records found after
      → All (HasKeys json keys) after
  IsChanged-HasKeys test change records found after keeps old c =
      let parts =
        All-split (HasKeys json keys) c.before (c.old ∷ c.rest)
          (subst (All (HasKeys json keys)) c.split old) in
      subst (All (HasKeys json keys)) (sym c.kept) (
        All-append (HasKeys json keys) c.before (change c.old ∷ c.rest) parts.0
          (keeps c.old parts.1.0, parts.1.1))
