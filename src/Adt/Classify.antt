-- ===== src/Adt/Classify.antt =====
-- `classify` and `classify_confident` of harness/adt_oracle.py: which data type a specification names.
-- Python's `str.lower`, the search for a whole word and the pattern for a priority queue are
-- parameters.
use jaros_code.Prelude.{
  ℕ, suc, ◌+◌, String, Bool, false, ◌||◌, Option, none, some, List, [], ◌∷◌, map, ltb, leb, ◌==◌,
  any, if◌then◌else◌,
}
use jaros_code.Text.{is_empty, contains}

pub data AdtClass : Type 0 where
  lru_class priority_queue_class ttl_store_class fifo_class ring_buffer_class : AdtClass

-- Its id in the table
abbrev pub class_id : AdtClass → String
class_id lru_class = "lru"
class_id priority_queue_class = "priority-queue"
class_id ttl_store_class = "ttl-store"
class_id fifo_class = "fifo"
class_id ring_buffer_class = "ring-buffer"

abbrev pub supported_classes : List AdtClass
supported_classes =
    lru_class ∷ priority_queue_class ∷ ttl_store_class ∷ fifo_class ∷ ring_buffer_class ∷ []

abbrev pub keywords : AdtClass → List String
keywords lru_class = "lru" ∷ "least recently used" ∷ "least-recently-used" ∷ []
keywords priority_queue_class =
    "priority queue" ∷ "priority-queue" ∷ "min-heap" ∷ "max-heap" ∷ "heapq" ∷ []
keywords ttl_store_class =
    "ttl" ∷ "time-to-live" ∷ "time to live" ∷ "expire" ∷ "expiry" ∷ "expiration" ∷ []
keywords fifo_class = "fifo" ∷ "first-in-first-out" ∷ "first in first out" ∷ []
keywords ring_buffer_class =
    "ring buffer" ∷ "ring-buffer" ∷ "circular buffer" ∷ "circular-buffer" ∷ []

abbrev method_tokens : AdtClass → List String
method_tokens lru_class = "get" ∷ "put" ∷ "capacity" ∷ "lru" ∷ []
method_tokens priority_queue_class = "push" ∷ "pop" ∷ "peek" ∷ "priority" ∷ "enqueue" ∷ []
method_tokens ttl_store_class = "set" ∷ "get" ∷ "expire" ∷ "ttl" ∷ []
method_tokens fifo_class = "enqueue" ∷ "dequeue" ∷ "fifo" ∷ []
method_tokens ring_buffer_class = "push" ∷ "pop" ∷ "overwrite" ∷ "ring" ∷ []

-- Those with a score, in the order of the table.
abbrev pub scored : List (AdtClass × ℕ) → List (AdtClass × ℕ)
scored [] = []
scored ((c, n) ∷ xs) = let rest = scored xs in if ltb 0 n then (c, n) ∷ rest else rest

abbrev pub best_of : List (AdtClass × ℕ) → ℕ
best_of [] = 0
best_of ((c, n) ∷ xs) = let rest = best_of xs in if leb rest n then n else rest

abbrev pub winners : ℕ → List (AdtClass × ℕ) → List AdtClass
winners best [] = []
winners best ((c, n) ∷ xs) = let rest = winners best xs in if n == best then c ∷ rest else rest

-- `winners[0] if len(winners) == 1 else None`
abbrev pub sole : List AdtClass → Option AdtClass
sole (c ∷ []) = some c
sole _ = none

module _ (lower : String → String) (has_word : (haystack needle : String) → Bool) where
  unfoldable pub contains_needle : (haystack needle : String) → Bool
  contains_needle haystack needle =
      if is_empty haystack || is_empty needle
      then false
      else if contains needle " " || contains needle "-"
      then contains haystack needle
      else has_word haystack needle

  abbrev keyword_score : String → List String → ℕ
  keyword_score text [] = 0
  keyword_score text (kw ∷ kws) =
      let rest = keyword_score text kws in if contains_needle text kw then 2 + rest else rest

  abbrev token_score : List String → List String → ℕ
  token_score names [] = 0
  token_score names (token ∷ tokens) =
      let rest = token_score names tokens in
      if any (λ name. contains_needle name token) names then suc rest else rest

  unfoldable pub score : (spec : String) (mods : List String) → AdtClass → ℕ
  score spec mods c =
      keyword_score (lower spec) (keywords c) + token_score (map lower mods) (method_tokens c)

  abbrev pub scores : (spec : String) (mods : List String) → List AdtClass → List (AdtClass × ℕ)
  scores spec mods cs = scored (map (λ c. (c, score spec mods c)) cs)

  unfoldable pub classify : (spec : String) (mods : List String) → Option AdtClass
  classify spec mods =
      let found = scores spec mods supported_classes in sole (winners (best_of found) found)

  module _ (loose_queue : String → Bool) where
    abbrev loosely : AdtClass → String → Bool
    loosely priority_queue_class spec = loose_queue spec
    loosely _ spec = false

    abbrev pub named : String → AdtClass → Bool
    named spec c = any (contains_needle (lower spec)) (keywords c) || loosely c spec

    abbrev confident : String → Option AdtClass → Option AdtClass
    confident spec none = none
    confident spec (some c) = if named spec c then some c else none

    unfoldable pub classify_confident : (spec : String) (mods : List String) → Option AdtClass
    classify_confident spec mods = confident spec (classify spec mods)
