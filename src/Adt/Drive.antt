-- ===== src/Adt/Drive.antt =====
-- `_build_sequence` and the comparison of `verify` in harness/adt_oracle.py: the command lines that
-- drive a built program, the lines that the reference model expects, and the first line where the
-- program disagrees. `show` is Python's `str` of an int.
use jaros_code.Prelude.{
  ℕ, zero, suc, ◌+◌, String, ◌≡◌, refl, ap, Bool, ◌≢◌, Option, none, some, List, [], ◌∷◌, ◌++◌, map,
  arith, length, take, str_eq, eq_iff, eq_refl, inl, inr, Bool-cases, if◌then◌else◌,
}
use jaros_code.Text.{◌<>◌}
use jaros_code.Dict.{Dict, lookup}
use jaros_code.Adt.Lru
use jaros_code.Adt.Lru.{Lru, new_lru}
use jaros_code.Adt.Heap
use jaros_code.Adt.Heap.{PriorityQueue, new_priority_queue}
use jaros_code.Adt.Ttl.{TtlStore, TtlOp, set_op, get_op, tick_op, new_ttl_store, ttl_step, ttl_line}
use jaros_code.Adt.Queues.{QueueOp, add_op, remove_op, peek_op, queue_step, enqueue, ring_capacity}
use jaros_code.Adt.Queues

-- `verbs.get(canonical, canonical)`
abbrev chosen : String → Option String → String
chosen canonical none = canonical
chosen canonical (some word) = word

abbrev pub word : Dict String → String → String
word verbs canonical = chosen canonical (lookup verbs canonical)

-- `"none" if value is None else str(value)`
abbrev pub line_of : Option String → String
line_of none = "none"
line_of (some value) = value

-- A command line and the line that is expected for it.
abbrev pub Exchange : Type 0
Exchange = String × String

pub data CacheOp : Type 0 where
  put_pair : (key value : String) → CacheOp
  get_key : (key : String) → CacheOp

pub data HeapOp : Type 0 where
  push_op : ℕ → String → HeapOp
  pop_op top_op : HeapOp

module _ (verbs : Dict String) where
  unfoldable pub lru_sequence : Lru → List CacheOp → List Exchange
  lru_sequence s [] = []
  lru_sequence s (put_pair key value ∷ ops) =
      (word verbs "put" <> " " <> key <> " " <> value, "ok")
      ∷ lru_sequence (Lru.put s key value) ops
  lru_sequence s (get_key key ∷ ops) =
      let found = Lru.get s key in
      (word verbs "get" <> " " <> key, line_of found.0) ∷ lru_sequence found.1 ops

  module _ (show : ℕ → String) where
    unfoldable pub heap_sequence : PriorityQueue → List HeapOp → List Exchange
    heap_sequence q [] = []
    heap_sequence q (push_op priority item ∷ ops) =
        (word verbs "push" <> " " <> show priority <> " " <> item, "ok")
        ∷ heap_sequence (Heap.push q priority item) ops
    heap_sequence q (pop_op ∷ ops) =
        let popped = Heap.pop q in (word verbs "pop", line_of popped.0) ∷ heap_sequence popped.1 ops
    heap_sequence q (top_op ∷ ops) =
        (word verbs "peek", line_of (Heap.peek q)) ∷ heap_sequence q ops

    abbrev pub ttl_command : TtlOp → String
    ttl_command (set_op key value ttl) =
        word verbs "set" <> " " <> key <> " " <> value <> " " <> show ttl
    ttl_command (get_op key) = word verbs "get" <> " " <> key
    ttl_command tick_op = word verbs "tick"

    unfoldable pub ttl_sequence : TtlStore → List TtlOp → List Exchange
    ttl_sequence s [] = []
    ttl_sequence s (op ∷ ops) =
        (ttl_command op, line_of (ttl_line s op)) ∷ ttl_sequence (ttl_step s op) ops

  -- The words of the queue's three commands differ between the two queues.
  abbrev queue_command : (add remove : String) → QueueOp → String
  queue_command add remove (add_op item) = word verbs add <> " " <> item
  queue_command add remove remove_op = word verbs remove
  queue_command add remove peek_op = word verbs "peek"

  unfoldable pub queue_sequence :
      (add remove : String)
      → (List String → String → List String)
      → List String
      → List QueueOp
      → List Exchange
  queue_sequence add remove append items [] = []
  queue_sequence add remove append items (op ∷ ops) =
      let next = queue_step append items op in
      (queue_command add remove op, line_of next.0) ∷ queue_sequence add remove append next.1 ops

-- The operations of one of the five classes, with the convention of a priority queue.
pub data Drive : Type 0 where
  lru : List CacheOp → Drive
  priority_queue : (is_max : Bool) → List HeapOp → Drive
  ttl_store : List TtlOp → Drive
  ring_buffer fifo : List QueueOp → Drive

-- `_build_sequence` after the operations are chosen.
unfoldable pub build_sequence : Dict String → (ℕ → String) → ℕ → Drive → List Exchange
build_sequence verbs show capacity (lru ops) = lru_sequence verbs (new_lru capacity) ops
build_sequence verbs show capacity (priority_queue is_max ops) =
    heap_sequence verbs show (new_priority_queue is_max) ops
build_sequence verbs show capacity (ttl_store ops) = ttl_sequence verbs show new_ttl_store ops
build_sequence verbs show capacity (ring_buffer ops) =
    queue_sequence verbs "push" "pop" (Queues.push (ring_capacity capacity)) [] ops
build_sequence verbs show capacity (fifo ops) =
    queue_sequence verbs "enqueue" "dequeue" enqueue [] ops

-- The first disagreement: its index, the expected line and what the program printed there, if it
-- printed as many lines.
pub record Divergence : Type 0 where
  pub index : ℕ
  pub expected : String
  pub actual : Option String

unfoldable pub first_divergence : ℕ → List String → List String → Option Divergence
first_divergence i [] actual = none
first_divergence i (e ∷ es) [] = some (record { index = i; expected = e; actual = none })
first_divergence i (e ∷ es) (a ∷ ls) =
    let later = first_divergence (suc i) es ls in
    if str_eq a e then later else some (record { index = i; expected = e; actual = some a })

-- `verify` once the program has run: the divergence between its lines and those of the model.
unfoldable pub verify_lines :
    Dict String → (ℕ → String) → ℕ → Drive → List String → Option Divergence
verify_lines verbs show capacity drive actual =
    first_divergence 0 (map (λ exchange. exchange.1) (build_sequence verbs show capacity drive))
      actual

-- The line at an index, `actual_lines[idx] if idx < len(actual_lines) else None`.
abbrev pub line_at : ℕ → List String → Option String
line_at i [] = none
line_at zero (l ∷ ls) = some l
line_at (suc i) (l ∷ ls) = line_at i ls

-- What a comparison from an index on says: no divergence means that the expected lines are printed,
-- in front; a divergence stands where the lines before it agree and that line does not.
abbrev pub Explains : ℕ → List String → List String → Option Divergence → Type 0
Explains i expected actual none = take (length expected) actual ≡ expected
Explains i expected actual (some d) =
    (n : ℕ) × (d.index ≡ i + n)
    × (take n actual ≡ take n expected)
    × (line_at n expected ≡ some d.expected)
    × (line_at n actual ≡ d.actual)
    × (d.actual ≢ some d.expected)

Explains-cons :
    (i : ℕ) (e : String) (es ls : List String) (o : Option Divergence)
    → Explains (suc i) es ls o
    → Explains i (e ∷ es) (e ∷ ls) o
Explains-cons i e es ls none h = ap (λ l. e ∷ l) h
Explains-cons i e es ls (some d) (n, index, same, expected, actual, apart) =
    (suc n, omega arith, ap (λ l. e ∷ l) same, expected, actual, apart)

pub first_divergence-Explains :
    (i : ℕ) (expected actual : List String)
    → Explains i expected actual (first_divergence i expected actual)
unfolding first_divergence
first_divergence-Explains i [] actual = refl
first_divergence-Explains i (e ∷ es) [] = (zero, omega arith, refl, refl, refl, λ h. absurd (cc h))
first_divergence-Explains i (e ∷ es) (a ∷ ls) = elim (Bool-cases (str_eq a e)) [
  | inl same ↦
      rw (same, (eq_iff a e).0 same)
        (Explains-cons i e es ls (first_divergence (suc i) es ls)
          (first_divergence-Explains (suc i) es ls))
  | inr other ↦ rw other (zero, omega arith, refl, refl, refl, λ h. ground (arith, eq_iff a e))
]

-- The comparison of a driven program with its reference model: where it finds no divergence, the
-- program's output begins with exactly the lines that the model gives for the operations; a
-- divergence it finds is the first one, with the expected line and the line that was printed.
pub verify_lines-Explains :
    (verbs : Dict String) (show : ℕ → String) (capacity : ℕ) (drive : Drive) (actual : List String)
    → Explains 0
        (map (λ exchange. exchange.1) (build_sequence verbs show capacity drive))
        actual
        (verify_lines verbs show capacity drive actual)
unfolding verify_lines
verify_lines-Explains verbs show capacity drive actual =
    first_divergence-Explains 0
      (map (λ exchange. exchange.1) (build_sequence verbs show capacity drive)) actual

-- A program that prints the model's lines diverges nowhere.
pub verify_lines-agrees :
    (verbs : Dict String) (show : ℕ → String) (capacity : ℕ) (drive : Drive) (extra : List String)
    → verify_lines verbs show capacity drive
        (map (λ exchange. exchange.1) (build_sequence verbs show capacity drive) ++ extra)
      ≡ none
unfolding verify_lines first_divergence
verify_lines-agrees verbs show capacity drive extra =
    go 0 (map (λ exchange. exchange.1) (build_sequence verbs show capacity drive))
  where
    go : (i : ℕ) (ls : List String) → first_divergence i ls (ls ++ extra) ≡ none
    go i [] = refl
    go i (l ∷ ls) = rw (eq_refl l) (go (suc i) ls)
