-- ===== src/CheckpointRing/Tests.antt =====
-- Tests of harness/checkpoint_ring.py and instances of its theorems.
use mathlib.Core.List.{reverse}
use jaros_code.Prelude.{
  ◌≤◌, min, ◌≡◌, refl, ◌⊎◌, String, true, false, none, some, List, [], ◌∷◌, ◌++◌, length, take,
}
use jaros_code.Text.{is_empty}
use jaros_code.CheckpointRing.{
  CheckpointEntry, CheckpointRing, empty, append, entries_newest_first, by_id, position_from_newest,
  last_n, drop_last_n,
}
use jaros_code.CheckpointRing.Bounds.{append_all, ring-window, last_n-drop_last_n}
use jaros_code.CheckpointRing.Lookup.{Lookup, at_position, by_id-Lookup, position_from_newest-at}

abbrev edit : String → CheckpointEntry
edit id = record {
  id = id;
  decision_type = "code.write_file";
  path = "a.py";
  existed = true;
  before_content = some "old";
  source = "cli";
  ts = 7;
}

abbrev history : List CheckpointEntry
history = edit "aa10" ∷ edit "ab20" ∷ edit "ab30" ∷ []

abbrev small : CheckpointRing
small = record { maxlen = 2; entries = edit "ab20" ∷ edit "ab30" ∷ [] }

evicts_oldest : append_all (empty 2) history ≡ small
unfolding append empty
evicts_oldest = refl

-- A prefix that two entries share finds the older one.
ambiguous_prefix : by_id small "ab" ≡ some (edit "ab20")
unfolding by_id
ambiguous_prefix = refl

ambiguous_position : position_from_newest small "ab" ≡ some 2
unfolding position_from_newest
ambiguous_position = refl

ring-window_example : entries_newest_first (append_all (empty 2) history) ≡ take 2 (reverse history)
ring-window_example = ring-window 2 history

last_n-drop_last_n_example :
    (last_n small 1 ++ entries_newest_first (drop_last_n small 1) ≡ entries_newest_first small)
    × (length (last_n small 1) ≡ min 1 (length small.entries))
    × ((drop_last_n small 1).maxlen ≡ small.maxlen)
last_n-drop_last_n_example = last_n-drop_last_n small 1

by_id-Lookup_example :
    ((is_empty "ab30" ≡ true) × (by_id small "ab30" ≡ none))
    ⊎ ((is_empty "ab30" ≡ false) × Lookup small.entries "ab30" (by_id small "ab30"))
by_id-Lookup_example = by_id-Lookup small "ab30"

position_from_newest-at_example :
    (1 ≤ 2)
    × (2 ≤ length small.entries)
    × (found entry : CheckpointEntry) × (by_id small "ab" ≡ some found)
    × (at_position (entries_newest_first small) 2 ≡ some entry)
    × (entry.id ≡ found.id)
unfolding position_from_newest
position_from_newest-at_example = position_from_newest-at small "ab" 2 refl
