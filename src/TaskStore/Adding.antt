-- ===== src/TaskStore/Adding.antt =====
-- `add_task` and `list_tasks` of harness/task_store.py: what is stored, how much, and what a
-- corrupt file does.
use jaros_code.Prelude.{
  ℕ, ◌≤◌, String, ◌≡◌, ap, ◌∙◌, false, some, List, [], ◌∷◌, ◌++◌, arith, All, length,
}
use jaros_code.Text.{is_empty, strip}
use jaros_code.Value.{Value, Fields, get, truthy}
use jaros_code.Exec.{Result, ok, err, other_error}
use jaros_code.JsonLines.{
  FileState, undecodable, WriteOutcome, written, Json, load_all, write_all, slice_last, add_to,
}
use jaros_code.JsonLines.RoundTrip.{
  Survives, HasKeys, OnOk, load_all-dumps, load_all-HasKeys, length-slice_last, All-slice_last,
}
use jaros_code.JsonLines.Storing.{loaded-HasKeys, added-HasKeys}
use jaros_code.TaskStore.{
  max_tasks, task_keys, new_task, known_status, add_task, listed, list_tasks,
}

-- The task that `add_task` makes.
abbrev pub made : (text status id : String) → Value → Fields
made text status id now = new_task id (strip text) (known_status status) now

-- The records of a file after `add_task`.
abbrev pub after_add : List Fields → Fields → List Fields
after_add records task = slice_last max_tasks (records ++ task ∷ [])

module _ (json : Json) (text status id : String) (now : Value) where
  made-HasKeys :
      is_empty (strip text) ≡ false
      → is_empty id ≡ false
      → HasKeys json task_keys (made text status id now)
  unfolding new_task truthy get
  made-HasKeys t i = rw (t, i)

  add_task-eq :
      (file : FileState) (records : List Fields) (outcome : WriteOutcome)
      → is_empty (strip text) ≡ false
      → load_all json task_keys file ≡ ok records
      → add_task json file text status id now outcome
        ≡ add_to json task_keys max_tasks file (made text status id now) outcome (ok records)
  unfolding add_task
  add_task-eq file records outcome t l = rw (t, l)

  -- A task with text and id that is added to a readable store, and whose write succeeds, is
  -- returned, and a later listing of up to `cap` tasks gives the end of the former records followed
  -- by the new task, of which the store keeps the newest 500.
  pub list_tasks-add_task :
      (file : FileState) (records : List Fields) (cap : ℕ)
      → is_empty (strip text) ≡ false
      → is_empty id ≡ false
      → load_all json task_keys file ≡ ok records
      → All (Survives json) (records ++ made text status id now ∷ [])
      → ((add_task json file text status id now written).0 ≡ ok (some (made text status id now)))
        × (list_tasks json (add_task json file text status id now written).1 cap
            ≡ slice_last cap (after_add records (made text status id now)))
  unfolding write_all list_tasks
  list_tasks-add_task file records cap t i l survive =
      let task = made text status id now in
      let e = add_task-eq file records written t l in
      let keys =
        added-HasKeys json task_keys max_tasks records task
          (loaded-HasKeys json task_keys file records l) (made-HasKeys t i) in
      let all = All-slice_last (Survives json) max_tasks (records ++ task ∷ []) survive in
      (
        ap (λ p. p.0) e,
        ap (λ p. list_tasks json p.1 cap) e
            ∙ ap (listed cap) (load_all-dumps json task_keys (after_add records task) all keys),
      )

  -- A file that is not UTF-8 makes `add_task` raise, for every task with text.
  pub add_task-undecodable :
      (outcome : WriteOutcome)
      → is_empty (strip text) ≡ false
      → add_task json undecodable text status id now outcome
        ≡ (err (other_error "UnicodeDecodeError"), undecodable)
  unfolding add_task load_all
  add_task-undecodable outcome t = rw t

module _ (json : Json) where
  -- A listing with a positive cap holds at most that many tasks, each with an id and a text that
  -- are not empty, whatever the file is.
  pub list_tasks-bounded :
      (file : FileState) (cap : ℕ)
      → 1 ≤ cap
      → (length (list_tasks json file cap) ≤ cap)
        × All (HasKeys json task_keys) (list_tasks json file cap)
  unfolding list_tasks
  list_tasks-bounded file cap positive =
      go (load_all json task_keys file) (load_all-HasKeys json task_keys file)
    where
      go :
          (r : Result (List Fields))
          → OnOk json task_keys (All (HasKeys json task_keys)) r
          → (length (listed cap r) ≤ cap) × All (HasKeys json task_keys) (listed cap r)
      go (err e) h = (omega arith, tt)
      go (ok records) h = (
        length-slice_last cap records positive,
        All-slice_last (HasKeys json task_keys) cap records h,
      )
