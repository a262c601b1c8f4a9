-- ===== src/TaskStore/Updating.antt =====
-- `update_task` of harness/task_store.py: which record changes, and what is stored.
use mathlib.Core.Path.{subst}
use jaros_code.Prelude.{
  String, ◌≡◌, refl, ap, ◌∙◌, true, false, Option, none, some, List, arith, inl, inr, Bool-cases,
  All, ◌⊎◌, str_eq, if◌then◌else◌,
}
use jaros_code.Text.{is_empty, strip}
use jaros_code.Value.{Value, str, Fields, get, put, get-put, truthy}
use jaros_code.Exec.{ok}
use jaros_code.JsonLines.{
  FileState, WriteOutcome, written, Json, load_all, write_all, change_first, save_update,
}
use jaros_code.JsonLines.RoundTrip.{
  Survives, HasKeys, load_all-dumps, IsChanged, Changed, change_first-Changed, change_first-misses,
}
use jaros_code.JsonLines.Storing.{loaded-HasKeys, IsChanged-HasKeys}
use jaros_code.TaskStore.{
  task_keys, has_id, with_status, with_text, updated, update_in, is_bad_status, update_task,
}

module _ (json : Json) where
  put-keeps :
      (k : String) (v : Value) (r : Fields)
      → ((get (put r k v) "id" ≡ (if str_eq k "id" then some v else get r "id")))
        × (get (put r k v) "text" ≡ (if str_eq k "text" then some v else get r "text"))
  put-keeps k v r = (get-put r k "id" v, get-put r k "text" v)

  with_status-get :
      (status : Option String) (r : Fields)
      → (get (with_status status r) "id" ≡ get r "id")
        × (get (with_status status r) "text" ≡ get r "text")
  with_status-get none r = (refl, refl)
  with_status-get (some s) r = put-keeps "status" (str s) r

  with_text-id : (text : Option String) (r : Fields) → get (with_text text r) "id" ≡ get r "id"
  with_text-id none r = refl
  with_text-id (some t) r = elim (Bool-cases (is_empty (strip t))) [
    | inl blank ↦ rw blank
    | inr full ↦ rw full (get-put r "text" "id" (str (strip t)))
  ]

  -- The id of a record is not touched by an update.
  updated-id :
      (status text : Option String) (now : Value) (r : Fields)
      → get (updated status text now r) "id" ≡ get r "id"
  unfolding updated
  updated-id status text now r =
      get-put (with_text text (with_status status r)) "updated_ts" "id" now
      ∙ with_text-id text (with_status status r)
      ∙ (with_status-get status r).0

  with_text-HasKeys :
      (text : Option String) (r : Fields)
      → HasKeys json task_keys r
      → HasKeys json task_keys (with_text text r)
  unfolding truthy
  with_text-HasKeys none r h = h
  with_text-HasKeys (some t) r h = elim (Bool-cases (is_empty (strip t))) [
    | inl blank ↦ rw blank h
    | inr full ↦
        rw (full, get-put r "text" "id" (str (strip t)), get-put r "text" "text" (str (strip t)))
          (ground arith)
  ]

  updated-HasKeys :
      (status text : Option String) (now : Value) (r : Fields)
      → HasKeys json task_keys r
      → HasKeys json task_keys (updated status text now r)
  unfolding updated
  updated-HasKeys status text now r h =
      let old = with_status status r in
      let kept : HasKeys json task_keys old =
        rw ((with_status-get status r).0, (with_status-get status r).1) h in
      let new = with_text text old in
      rw (get-put new "updated_ts" "id" now, get-put new "updated_ts" "text" now)
        (with_text-HasKeys text old kept)

  update_task-eq :
      (file : FileState) (id : String) (status text : Option String) (now : Value)
      (outcome : WriteOutcome)
      → is_empty (strip id) ≡ false
      → is_bad_status status ≡ false
      → update_task json file id status text now outcome
        ≡ update_in json file
            (has_id (strip id))
            (updated status text now)
            outcome
            (load_all json task_keys file)
  unfolding update_task
  update_task-eq file id status text now outcome named good = rw (named, good)

  -- Where a record of a readable store has the id, the status is one of the three or none, and the
  -- write succeeds, `update_task` changes the first such record and nothing else, returns the
  -- changed record, and the written file reads as the changed list.
  pub update_task-changes :
      (file : FileState) (records : List Fields) (id : String) (status text : Option String)
      (now : Value) (task : Fields) (after : List Fields)
      → is_empty (strip id) ≡ false
      → is_bad_status status ≡ false
      → load_all json task_keys file ≡ ok records
      → change_first (has_id (strip id)) (updated status text now) records ≡ some (task, after)
      → All (Survives json) after
      → ((update_task json file id status text now written).0 ≡ ok (some task))
        × (load_all json task_keys (update_task json file id status text now written).1 ≡ ok after)
        × IsChanged (has_id (strip id)) (updated status text now) records task after
  unfolding write_all
  update_task-changes file records id status text now task after named good l c survive =
      let test = has_id (strip id) in
      let change = updated status text now in
      let e =
        update_task-eq file id status text now written named good
        ∙ ap (update_in json file test change written) l
        ∙ ap (save_update json task_keys file written) c in
      let found =
        subst (Changed test change records) c (change_first-Changed test change records) in
      let keys =
        IsChanged-HasKeys json task_keys test change records task after
          (updated-HasKeys status text now) (loaded-HasKeys json task_keys file records l) found in
      (
        ap (λ p. p.0) e,
        ap (λ p. load_all json task_keys p.1) e ∙ load_all-dumps json task_keys after survive keys,
        found,
      )

  -- A status outside the three, and an id that no record of a readable store has, give no task and
  -- leave the file as it is.
  pub update_task-refuses :
      (file : FileState) (records : List Fields) (id : String) (status text : Option String)
      (now : Value) (outcome : WriteOutcome)
      → load_all json task_keys file ≡ ok records
      → (is_bad_status status ≡ true) ⊎ All (λ r. has_id (strip id) r ≡ false) records
      → update_task json file id status text now outcome ≡ (ok none, file)
  unfolding update_task
  update_task-refuses file records id status text now outcome l why =
      elim (Bool-cases (is_empty (strip id))) [
        | inl blank ↦ rw blank
        | inr named ↦ elim (Bool-cases (is_bad_status status)) [
          | inl bad ↦ rw (named, bad)
          | inr good ↦
              update_task-eq file id status text now outcome named good
              ∙ ap (update_in json file (has_id (strip id)) (updated status text now) outcome) l
              ∙ ap (save_update json task_keys file outcome) (
                  change_first-misses (has_id (strip id)) (updated status text now) records
                    (by_miss why good))
        ]
      ]
    where
      by_miss :
          (is_bad_status status ≡ true) ⊎ All (λ r. has_id (strip id) r ≡ false) records
          → is_bad_status status ≡ false
          → All (λ r. has_id (strip id) r ≡ false) records
      by_miss (inl bad) good = absurd (cc)
      by_miss (inr misses) good = misses
