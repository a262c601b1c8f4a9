-- ===== src/CheckpointRing.antt =====
-- harness/checkpoint_ring.py: the bounded ring of per-edit checkpoints. The entries are kept
-- oldest first, as `deque(maxlen=…)` keeps them. Clock readings and fresh ids are arguments.
pub mod Bounds
pub mod Lookup
mod Tests
use text.Mathlib.Text.{starts_with}
use jaros_code.Prelude.{
  ℕ, zero, suc, ◌+◌, ◌-◌, min, String, Bool, true, false, Option, none, some, List, [], ◌∷◌, ◌++◌,
  length, take, drop, find, str_eq, if◌then◌else◌,
}
use mathlib.Core.List.{reverse}
use jaros_code.Text.{is_empty}

pub record CheckpointEntry : Type 0 where
  pub id : String
  pub decision_type : String
  pub path : String
  pub existed : Bool
  pub before_content : Option String
  pub source : String
  pub ts : ℕ

pub record CheckpointRing : Type 0 where
  pub maxlen : ℕ
  pub entries : List CheckpointEntry

unfoldable pub empty : ℕ → CheckpointRing
empty maxlen = record { maxlen = maxlen; entries = [] }

-- `deque.append` under `maxlen`: entries fall off at the old end.
unfoldable pub append : CheckpointRing → CheckpointEntry → CheckpointRing
append ring entry =
    let longer = ring.entries ++ entry ∷ [] in
    record ring { entries = drop (length longer - ring.maxlen) longer }

-- `record`: the new entry and the ring after it, from a fresh id and the time
unfoldable pub record_entry :
    CheckpointRing
    → (id decision_type path : String) → Bool
    → Option String
    → (source : String) → ℕ
    → CheckpointEntry × CheckpointRing
unfolding append
record_entry ring id decision_type path existed before_content source now =
    let entry : CheckpointEntry = record {
      id = id;
      decision_type = decision_type;
      path = path;
      existed = existed;
      before_content = before_content;
      source = source;
      ts = now;
    } in
    (entry, append ring entry)

abbrev pub entries_oldest_first : CheckpointRing → List CheckpointEntry
entries_oldest_first ring = ring.entries

abbrev pub entries_newest_first : CheckpointRing → List CheckpointEntry
entries_newest_first ring = reverse ring.entries

-- The second loop of `by_id`, which runs where the first found nothing.
abbrev or_prefix : Option CheckpointEntry → String → List CheckpointEntry → Option CheckpointEntry
or_prefix (some entry) id entries = some entry
or_prefix none id entries = find (λ e. starts_with e.id id) entries

-- `by_id`: an exact match first, then the oldest entry whose id has the given prefix
unfoldable pub by_id : CheckpointRing → String → Option CheckpointEntry
by_id ring id =
    if is_empty id
    then none
    else or_prefix (find (λ e. str_eq e.id id) ring.entries) id ring.entries

-- The 1-based position of the first entry with the given id.
unfoldable pub position : ℕ → String → List CheckpointEntry → Option ℕ
position n id [] = none
position n id (e ∷ es) =
    let rest = position (n + 1) id es in if str_eq e.id id then some n else rest

abbrev position_of : CheckpointRing → Option CheckpointEntry → Option ℕ
position_of ring none = none
position_of ring (some entry) = position 1 entry.id (entries_newest_first ring)

unfoldable pub position_from_newest : CheckpointRing → String → Option ℕ
unfolding position by_id
position_from_newest ring id = position_of ring (by_id ring id)

-- `last_n`; an argument below 1 gives no entry, as 0 does.
unfoldable pub last_n : CheckpointRing → ℕ → List CheckpointEntry
last_n ring zero = []
last_n ring (suc n) = take (suc n) (entries_newest_first ring)

-- `deque.pop`
abbrev pub pop : List CheckpointEntry → List CheckpointEntry
pop [] = []
pop (e ∷ []) = []
pop (e ∷ f ∷ es) = e ∷ pop (f ∷ es)

unfoldable pub pop_times : ℕ → List CheckpointEntry → List CheckpointEntry
pop_times zero es = es
pop_times (suc n) es = pop_times n (pop es)

unfoldable pub drop_last_n : CheckpointRing → ℕ → CheckpointRing
unfolding pop_times
drop_last_n ring n = record ring { entries = pop_times (min n (length ring.entries)) ring.entries }
