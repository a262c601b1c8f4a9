-- ===== src/TaskStore/Tests.antt =====
-- Runs of the task store on a concrete `json`, and the theorems at those runs.
use jaros_code.Prelude.{
  String, ◌≡◌, refl, false, Option, none, some, [], ◌∷◌, arith, str_eq, inr, All, length, ◌≤◌,
  if◌then◌else◌,
}
use jaros_code.Text.{strip}
use jaros_code.Value.{
  Value, num, str, object, array, cons, nil, null, Fields, end, entry, get, is_text_option,
}
use jaros_code.Exec.{ok, err, other_error}
use jaros_code.JsonLines.{
  FileState, lines, undecodable, absent, written, failed, Json, has_keys, load_all, slice_last,
  change_first,
}
use jaros_code.JsonLines.RoundTrip.{Survives, HasKeys, IsChanged}
use jaros_code.TaskStore.{
  task_keys, new_task, add_task, list_tasks, update_task, updated, has_id, propose_tasks,
}
use jaros_code.TaskStore.Adding.{
  made, after_add, list_tasks-add_task, add_task-undecodable, list_tasks-bounded,
}
use jaros_code.TaskStore.Updating.{update_task-changes, update_task-refuses}

abbrev noon : Value
noon = num false 12 0

abbrev first : Fields
first =
    entry "id" (str "a1")
      (entry "text" (str "write the parser") (entry "status" (str "pending") (entry "ts" noon end)))

abbrev second : Fields
second =
    entry "id" (str "b2")
      (entry "text" (str "test it") (entry "status" (str "pending") (entry "ts" noon end)))

abbrev first_done : Fields
first_done = entry "id" (str "a1") (
    entry "text" (str "write the parser")
      (entry "status" (str "done") (entry "ts" noon (entry "updated_ts" noon end))))

-- The keys a test document needs to be told apart.
abbrev name_of : Fields → String
name_of fs =
    if is_text_option (get fs "id") "b2"
    then "{b2}"
    else if is_text_option (get fs "status") "done"
    then "{a1 done}"
    else "{a1}"

abbrev read_name : String → Option Value
read_name line =
    if str_eq line "{a1}"
    then some (object first)
    else if str_eq line "{b2}"
    then some (object second)
    else if str_eq line "{a1 done}"
    then some (object first_done)
    else none

-- A `json` that knows three records.
abbrev three_records : Json
three_records = record { loads = read_name; dumps = name_of }

abbrev one_task : FileState
one_task = lines ("{a1}" ∷ "" ∷ "not json" ∷ [])

abbrev two_tasks : FileState
two_tasks = lines ("{a1}" ∷ "{b2}" ∷ [])

first-Survives : Survives three_records first
unfolding strip get
first-Survives = record { loads_dumps = refl; stripped = refl; not_blank = refl }

second-Survives : Survives three_records second
unfolding strip get
second-Survives = record { loads_dumps = refl; stripped = refl; not_blank = refl }

first_done-Survives : Survives three_records first_done
unfolding strip get
first_done-Survives = record { loads_dumps = refl; stripped = refl; not_blank = refl }

load_one : load_all three_records task_keys one_task ≡ ok (first ∷ [])
unfolding load_all jaros_code.JsonLines.parse_line strip get jaros_code.Value.truthy
load_one = refl

load_two : load_all three_records task_keys two_tasks ≡ ok (first ∷ second ∷ [])
unfolding load_all jaros_code.JsonLines.parse_line strip get jaros_code.Value.truthy
load_two = refl

blank_text : add_task three_records one_task "  " "done" "b2" noon written ≡ (ok none, one_task)
unfolding add_task strip
blank_text = refl

failing_write :
    (add_task three_records one_task "test it" "later" "b2" noon (failed absent)).1 ≡ absent
unfolding add_task jaros_code.JsonLines.write_all load_all jaros_code.JsonLines.parse_line strip get
    jaros_code.Value.truthy
failing_write = refl

proposals :
    propose_tasks
      (λ v. if is_text_option (some v) "x" then " x " else "  ")
      "build it"
      (some (array (cons (str "x") (cons null (cons (str "x") nil)))))
    ≡ "x" ∷ "x" ∷ []
unfolding propose_tasks strip jaros_code.Value.to_list
proposals = refl

list_tasks-add_task_example :
    ((add_task three_records one_task " test it " "later" "b2" noon written).0
      ≡ ok (some (made " test it " "later" "b2" noon)))
    × (list_tasks three_records
          (add_task three_records one_task " test it " "later" "b2" noon written).1
          1
        ≡ slice_last 1 (after_add (first ∷ []) (made " test it " "later" "b2" noon)))
unfolding strip get new_task
list_tasks-add_task_example =
    list_tasks-add_task three_records " test it " "later" "b2" noon one_task (first ∷ []) 1 refl
      refl load_one (first-Survives, (second-Survives, tt))

add_task-undecodable_example :
    add_task three_records undecodable "test it" "pending" "b2" noon written
    ≡ (err (other_error "UnicodeDecodeError"), undecodable)
unfolding strip
add_task-undecodable_example =
    add_task-undecodable three_records "test it" "pending" "b2" noon written refl

list_tasks-bounded_example :
    (length (list_tasks three_records two_tasks 1) ≤ 1)
    × All (HasKeys three_records task_keys) (list_tasks three_records two_tasks 1)
list_tasks-bounded_example = list_tasks-bounded three_records two_tasks 1 (omega arith)

update_task-changes_example :
    ((update_task three_records two_tasks " a1 " (some "done") (some " ") noon written).0
      ≡ ok (some first_done))
    × (load_all three_records task_keys
          (update_task three_records two_tasks " a1 " (some "done") (some " ") noon written).1
        ≡ ok (first_done ∷ second ∷ []))
    × IsChanged
        (has_id (strip " a1 "))
        (updated (some "done") (some " ") noon)
        (first ∷ second ∷ [])
        first_done
        (first_done ∷ second ∷ [])
unfolding strip get updated change_first jaros_code.Value.put
update_task-changes_example =
    update_task-changes three_records two_tasks (first ∷ second ∷ []) " a1 " (some "done")
      (some " ") noon first_done (first_done ∷ second ∷ []) refl refl load_two refl
      (first_done-Survives, (second-Survives, tt))

update_task-refuses_example :
    update_task three_records two_tasks "zz" (some "done") none noon written ≡ (ok none, two_tasks)
unfolding strip get
update_task-refuses_example =
    update_task-refuses three_records two_tasks (first ∷ second ∷ []) "zz" (some "done") none noon
      written load_two (inr (refl, (refl, tt)))
