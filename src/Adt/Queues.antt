-- ===== src/Adt/Queues.antt =====
-- `_FifoReferenceModel` and `_RingBufferReferenceModel` of harness/adt_oracle.py: a `deque`, oldest
-- item first, without and with a capacity.
use jaros_code.Prelude.{
  ℕ, zero, suc, ◌+◌, ◌-◌, ◌≤◌, String, ◌≡◌, refl, ap, sym, ◌∙◌, Option, none, some, List, [], ◌∷◌,
  ◌++◌, arith, leb, ◌==◌, length, drop, last_n, append-nil, append_assoc, length-append,
  length-drop, inl, inr, Bool-cases, if◌then◌else◌,
}

-- `popleft`, and the first item without removing it; `none` on an empty queue.
abbrev pub dequeue : List String → Option String × List String
dequeue [] = (none, [])
dequeue (item ∷ items) = (some item, items)

abbrev pub peek : List String → Option String
peek [] = none
peek (item ∷ items) = some item

abbrev pub enqueue : List String → String → List String
enqueue items item = items ++ item ∷ []

-- `deque(maxlen=capacity).append`: at capacity the oldest item makes room.
unfoldable pub push : ℕ → List String → String → List String
push capacity items item =
    if leb capacity (length items) then enqueue (drop 1 items) item else enqueue items item

-- `max(1, int(capacity))`, at a capacity that is not negative
unfoldable pub ring_capacity : ℕ → ℕ
ring_capacity capacity = if capacity == 0 then 1 else capacity

pub data QueueOp : Type 0 where
  add_op : String → QueueOp
  remove_op : QueueOp
  peek_op : QueueOp

-- An operation of either queue, `add` being its way to add an item: the value that is printed, where
-- there is one to read, and the queue after it.
module _ (add : List String → String → List String) where
  unfoldable pub queue_step : List String → QueueOp → Option String × List String
  queue_step items (add_op item) = (some "ok", add items item)
  queue_step items remove_op = dequeue items
  queue_step items peek_op = (peek items, items)

  unfoldable pub run_queue : List String → List QueueOp → List String
  run_queue items [] = items
  run_queue items (op ∷ ops) = run_queue (queue_step items op).1 ops

  abbrev cons_removed : QueueOp → Option String → List String → List String
  cons_removed remove_op (some item) rest = item ∷ rest
  cons_removed _ _ rest = rest

  -- The items that the operations take out, in order.
  unfoldable pub removed : List String → List QueueOp → List String
  removed items [] = []
  removed items (op ∷ ops) =
      cons_removed op (queue_step items op).0 (removed (queue_step items op).1 ops)

-- The items that the operations put in, in order.
abbrev pub added : List QueueOp → List String
added [] = []
added (add_op item ∷ ops) = item ∷ added ops
added (remove_op ∷ ops) = added ops
added (peek_op ∷ ops) = added ops

-- First in, first out: whatever the operations are, the items that a queue gives out followed by
-- those that it still holds are the items that it held followed by those that were put in, in
-- order. No item is lost, repeated or overtaken.
pub removed-append-run_queue :
    (items : List String) (ops : List QueueOp)
    → removed enqueue items ops ++ run_queue enqueue items ops ≡ items ++ added ops
unfolding removed run_queue queue_step
removed-append-run_queue items [] = sym (append-nil items)
removed-append-run_queue items (add_op item ∷ ops) =
    removed-append-run_queue (items ++ item ∷ []) ops ∙ append_assoc items (item ∷ []) (added ops)
removed-append-run_queue [] (remove_op ∷ ops) = removed-append-run_queue [] ops
removed-append-run_queue (item ∷ items) (remove_op ∷ ops) =
    ap (λ l. item ∷ l) (removed-append-run_queue items ops)
removed-append-run_queue items (peek_op ∷ ops) = removed-append-run_queue items ops

drop-one : (items : List String) (item : String) → drop 1 (item ∷ items) ≡ items
drop-one items item = refl

length-push :
    (capacity : ℕ) (items : List String) (item : String)
    → 1 ≤ capacity
    → length items ≤ capacity
    → length (push capacity items item) ≤ capacity
unfolding push
length-push capacity items item p h =
    let full = length-append (drop 1 items) (item ∷ []) in
    let roomy = length-append items (item ∷ []) in ground (arith, full, roomy, length-drop 1 items)

-- A ring never holds more items than its capacity, whatever the operations are.
pub run_queue_bounded :
    (capacity : ℕ) (items : List String) (ops : List QueueOp)
    → 1 ≤ capacity
    → length items ≤ capacity
    → length (run_queue (push capacity) items ops) ≤ capacity
unfolding run_queue queue_step
run_queue_bounded capacity items [] p h = h
run_queue_bounded capacity items (add_op item ∷ ops) p h =
    run_queue_bounded capacity (push capacity items item) ops p
      (length-push capacity items item p h)
run_queue_bounded capacity [] (remove_op ∷ ops) p h = run_queue_bounded capacity [] ops p h
run_queue_bounded capacity (item ∷ items) (remove_op ∷ ops) p h =
    run_queue_bounded capacity items ops p (omega arith)
run_queue_bounded capacity items (peek_op ∷ ops) p h = run_queue_bounded capacity items ops p h

module _ {ℓ} {A : Type ℓ} where
  drop-append : (n : ℕ) (xs ys : List A) → n ≤ length xs → drop n (xs ++ ys) ≡ drop n xs ++ ys
  drop-append zero xs ys h = refl
  drop-append (suc n) [] ys h = absurd (omega arith)
  drop-append (suc n) (x ∷ xs) ys h = drop-append n xs ys (omega arith)

  drop-drop : (m n : ℕ) (xs : List A) → drop m (drop n xs) ≡ drop (n + m) xs
  drop-drop m zero xs = let e : zero + m ≡ m = omega arith in rw e
  drop-drop zero (suc n) [] = let e : suc n + zero ≡ suc n = omega arith in rw e
  drop-drop (suc m) (suc n) [] = let e : suc n + suc m ≡ suc (n + suc m) = omega arith in rw e
  drop-drop m (suc n) (x ∷ xs) =
      let e : suc n + m ≡ suc (n + m) = omega arith in rw e (drop-drop m n xs)

  last_n-append : (c : ℕ) (xs ys : List A) → last_n c (last_n c xs ++ ys) ≡ last_n c (xs ++ ys)
  last_n-append c xs ys =
      let n = length xs - c in
      let joined = drop-append n xs ys (omega arith) in
      let whole = length-append xs ys in
      let short = length-drop n (xs ++ ys) in
      let e : n + ((length (xs ++ ys) - n) - c) ≡ length (xs ++ ys) - c = omega arith in
      rw (← joined, short)
        (drop-drop ((length (xs ++ ys) - n) - c) n (xs ++ ys) ∙ ap (λ m. drop m (xs ++ ys)) e)

abbrev pub add_all : List String → List QueueOp
add_all [] = []
add_all (x ∷ xs) = add_op x ∷ add_all xs

push-window :
    (capacity : ℕ) (items : List String) (item : String)
    → 1 ≤ capacity
    → length items ≤ capacity
    → push capacity items item ≡ last_n capacity (items ++ item ∷ [])
unfolding push
push-window capacity items item p h =
    let longer = length-append items (item ∷ []) in
    elim (Bool-cases (leb capacity (length items))) [
      | inl full ↦
          let same : length items ≡ capacity = ground arith in
          let e : length (items ++ item ∷ []) - capacity ≡ 1 = omega arith in
          rw (full, e) (sym (drop-append 1 items (item ∷ []) (omega arith)))
      | inr room ↦ let e : length (items ++ item ∷ []) - capacity ≡ 0 = ground arith in rw (room, e)
    ]

-- Items that are pushed one after the other leave the newest `capacity` of all items in the ring, in
-- order: what is overwritten is always the oldest.
pub run_queue-add_all :
    (capacity : ℕ) (items xs : List String)
    → 1 ≤ capacity
    → length items ≤ capacity
    → run_queue (push capacity) items (add_all xs) ≡ last_n capacity (items ++ xs)
unfolding run_queue queue_step
run_queue-add_all capacity items [] p h =
    let e : length items - capacity ≡ 0 = omega arith in rw (append-nil items, e)
run_queue-add_all capacity items (x ∷ xs) p h =
    run_queue-add_all capacity (push capacity items x) xs p (length-push capacity items x p h)
    ∙ rw (push-window capacity items x p h) (
        last_n-append capacity (items ++ x ∷ []) xs
        ∙ ap (last_n capacity) (append_assoc items (x ∷ []) xs))
