-- ===== src/TaskStore.antt =====
-- harness/task_store.py: the per-repository task list in `.jaros/tasks.jsonl`. The store is the
-- file; fresh ids and clock readings are arguments, and `propose_tasks` takes what the model's text
-- parses to.
pub mod Adding
pub mod Updating
mod Tests
use jaros_code.Prelude.{
  ℕ, String, Bool, true, false, not, ◌&&◌, ◌||◌, Option, none, some, List, [], ◌∷◌, ◌++◌,
  filter_map, take, str_eq, if◌then◌else◌,
}
use jaros_code.Text.{is_empty, strip}
use jaros_code.Value.{
  Value, str, array, object, Items, Fields, end, entry, get, put, is_text_option, to_list,
}
use jaros_code.Exec.{Result, ok, err}
use jaros_code.Permissions.{one_of}
use jaros_code.JsonLines.{
  FileState, WriteOutcome, Json, load_all, write_all, slice_last, change_first, Store, saved,
  add_to, save_update,
}

abbrev pub max_tasks : ℕ
max_tasks = 500

abbrev pub max_proposed : ℕ
max_proposed = 6

abbrev pub statuses : List String
statuses = "pending" ∷ "in_progress" ∷ "done" ∷ []

-- The keys that a stored task must have.
abbrev pub task_keys : List String
task_keys = "id" ∷ "text" ∷ []

unfoldable pub new_task : (id text status : String) → Value → Fields
new_task id text status now =
    entry "id" (str id) (entry "text" (str text) (entry "status" (str status) (entry "ts" now end)))

abbrev known_status : String → String
known_status status = if one_of status statuses then status else "pending"

abbrev listed : ℕ → Result (List Fields) → List Fields
listed cap (err e) = []
listed cap (ok records) = slice_last cap records

abbrev with_status : Option String → Fields → Fields
with_status none r = r
with_status (some status) r = put r "status" (str status)

abbrev with_text : Option String → Fields → Fields
with_text none r = r
with_text (some text) r = if is_empty (strip text) then r else put r "text" (str (strip text))

unfoldable pub updated : Option String → Option String → Value → Fields → Fields
updated status text now r = put (with_text text (with_status status r)) "updated_ts" now

abbrev pub has_id : String → Fields → Bool
has_id id r = is_text_option (get r "id") id

abbrev is_bad_status : Option String → Bool
is_bad_status none = false
is_bad_status (some status) = not (one_of status statuses)

module _ (json : Json) where
  unfoldable pub add_task :
      FileState → (text status id : String) → Value → WriteOutcome → Store (Option Fields)
  add_task file text status id now outcome =
      if is_empty (strip text)
      then (ok none, file)
      else add_to json task_keys max_tasks file (new_task id (strip text) (known_status status) now)
          outcome (load_all json task_keys file)

  -- `list_tasks`: every error gives the empty list.
  unfoldable pub list_tasks : FileState → ℕ → List Fields
  list_tasks file cap = listed cap (load_all json task_keys file)

  abbrev update_in :
      FileState
      → (Fields → Bool)
      → (Fields → Fields)
      → WriteOutcome
      → Result (List Fields)
      → Store (Option Fields)
  update_in file test change outcome (err e) = (err e, file)
  update_in file test change outcome (ok records) =
      save_update json task_keys file outcome (change_first test change records)

  unfoldable pub update_task :
      FileState
      → (id : String) → (status text : Option String) → Value
      → WriteOutcome
      → Store (Option Fields)
  update_task file id status text now outcome =
      if is_empty (strip id)
      then (ok none, file)
      else if is_bad_status status
      then (ok none, file)
      else update_in file (has_id (strip id)) (updated status text now) outcome
          (load_all json task_keys file)

-- `propose_tasks` after the model's answer: `answer` is the JSON value in it, `none` where the model
-- fails or no list can be parsed, and `show` is Python's `str`.
module _ (show : Value → String) where
  abbrev proposed : Value → Option String
  proposed v = if is_empty (strip (show v)) then none else some (strip (show v))

  unfoldable pub propose_tasks : String → Option Value → List String
  propose_tasks request (some (array vs)) =
      if is_empty (strip request) then [] else take max_proposed (filter_map proposed (to_list vs))
  propose_tasks request _ = []
