-- ===== src/JsonLines.antt =====
-- The JSON-lines files of harness/task_store.py and harness/experiment_store.py: `_load_all` and
-- `_write_all`, which differ only in the keys that a record must have. A file is what reading it
-- gives, a text being the list of its lines (`splitlines`); `json.loads` and `json.dumps` are
-- parameters, `loads` being `none` where it raises.
pub mod RoundTrip
pub mod Storing
use jaros_code.Prelude.{
  ℕ, zero, suc, String, ◌≡◌, Bool, true, false, not, ◌&&◌, Option, none, some, List, [], ◌∷◌, ◌++◌,
  map, filter_map, last_n, if◌then◌else◌,
}
use jaros_code.Text.{is_empty, strip}
use jaros_code.Value.{Value, object, Fields, get, put, truthy_option}
use jaros_code.Exec.{Result, ok, err, other_error}

pub data FileState : Type 0 where
  -- `is_file` is false
  absent : FileState
  -- reading raises `OSError`
  unreadable : FileState
  -- reading raises `UnicodeDecodeError`, which is no `OSError`
  undecodable : FileState
  lines : List String → FileState

-- What a write ends in: the text is there, or `OSError` with some file left behind.
pub data WriteOutcome : Type 0 where
  written : WriteOutcome
  failed : FileState → WriteOutcome

pub record Json : Type 0 where
  pub loads : String → Option Value
  pub dumps : Fields → String

-- `all(rec.get(key) for key in keys)`
abbrev pub has_keys : List String → Fields → Bool
has_keys [] fs = true
has_keys (key ∷ keys) fs = truthy_option (get fs key) && has_keys keys fs

-- `xs[-cap:]`: the last `cap` elements, and the whole list where `cap` is 0.
unfoldable pub slice_last {ℓ} : {A : Type ℓ} → ℕ → List A → List A
slice_last zero xs = xs
slice_last (suc n) xs = last_n (suc n) xs

module _ (json : Json) (keys : List String) where
  abbrev record_of : Option Value → Option Fields
  record_of (some (object fs)) = if has_keys keys fs then some fs else none
  record_of _ = none

  -- One line: skipped if blank, not JSON, no object, or without a required key.
  unfoldable pub parse_line : String → Option Fields
  parse_line line = if is_empty (strip line) then none else record_of (json.loads (strip line))

  -- `_load_all`
  unfoldable pub load_all : FileState → Result (List Fields)
  load_all absent = ok []
  load_all unreadable = ok []
  load_all undecodable = err (other_error "UnicodeDecodeError")
  load_all (lines ls) = ok (filter_map parse_line ls)

  -- `_write_all`
  unfoldable pub write_all : List Fields → WriteOutcome → Bool × FileState
  write_all records written = (true, lines (map json.dumps records))
  write_all records (failed file) = (false, file)

-- The loop that looks for the first record with a property and changes it in place: the changed
-- record and the whole list.
abbrev pub in_front : Fields → Option (Fields × List Fields) → Option (Fields × List Fields)
in_front r none = none
in_front r (some (changed, rest)) = some (changed, r ∷ rest)

unfoldable pub change_first :
    (Fields → Bool) → (Fields → Fields) → List Fields → Option (Fields × List Fields)
change_first test change [] = none
change_first test change (r ∷ rs) =
    let later = in_front r (change_first test change rs) in
    if test r then some (change r, change r ∷ rs) else later

-- What a function of a store returns or raises, and the file after it.
abbrev pub Store : Type 0 → Type 0
Store A = Result A × FileState

module _ (json : Json) (keys : List String) where
  -- `_write_all`, with what is returned where the write succeeds
  abbrev pub saved : List Fields → Fields → WriteOutcome → Store (Option Fields)
  saved records new outcome =
      let wrote = write_all json keys records outcome in
      (ok (if wrote.0 then some new else none), wrote.1)

  -- A new record at the end of what was loaded, of which the newest `max` are kept.
  abbrev pub add_to :
      ℕ → FileState → Fields → WriteOutcome → Result (List Fields) → Store (Option Fields)
  add_to max file new outcome (err e) = (err e, file)
  add_to max file new outcome (ok records) =
      saved (slice_last max (records ++ new ∷ [])) new outcome

  -- The write of a changed record, where one was found.
  abbrev pub save_update :
      FileState → WriteOutcome → Option (Fields × List Fields) → Store (Option Fields)
  save_update file outcome none = (ok none, file)
  save_update file outcome (some (new, records)) = saved records new outcome
