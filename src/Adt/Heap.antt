-- ===== src/Adt/Heap.antt =====
-- `_PriorityQueueReferenceModel` of harness/adt_oracle.py. A heap of `heapq` is the collection of
-- its entries, here in the order in which they were pushed; `heappop` takes the least entry and
-- `self._heap[0]` is the least one. Priorities are not negative.
use mathlib.Core.Path.{subst}
use mathlib.Core.List.Permᴰ
use mathlib.Core.List.{Permᴰ}
use jaros_code.Prelude.{
  ℕ, ◌+◌, ◌<◌, String, ◌≡◌, refl, ap, sym, Bool, true, false, Option, none, some, List, [], ◌⊎◌,
  ◌∷◌, ◌++◌, arith, ltb, leb, ◌==◌, inl, inr, Bool-cases, All, All-append, All-of, All-Permᴰ,
  if◌then◌else◌,
}

pub record HeapEntry : Type 0 where
  pub priority : ℕ
  pub count : ℕ
  pub item : String

-- `convention`, and the entries with the insertion counter.
pub record PriorityQueue : Type 0 where
  pub is_max : Bool
  pub heap : List HeapEntry
  pub counter : ℕ

unfoldable pub new_priority_queue : Bool → PriorityQueue
new_priority_queue is_max = record { is_max = is_max; heap = []; counter = 0 }

-- `(sign * priority, counter, …) <= (sign * priority, counter, …)`; no two counters are equal.
unfoldable pub entry_leq : Bool → HeapEntry → HeapEntry → Bool
entry_leq is_max a b =
    if a.priority == b.priority
    then leb a.count b.count
    else if is_max
    then ltb b.priority a.priority
    else ltb a.priority b.priority

unfoldable pub push : PriorityQueue → ℕ → String → PriorityQueue
push q priority item = record q {
  heap = q.heap ++ record { priority = priority; count = q.counter; item = item } ∷ [];
  counter = q.counter + 1;
}

-- The least entry of a heap, given an entry and the others, and the rest of the heap.
unfoldable pub least : Bool → HeapEntry → List HeapEntry → HeapEntry × List HeapEntry
least is_max e [] = (e, [])
least is_max e (f ∷ fs) =
    let found = least is_max f fs in
    if entry_leq is_max e found.0 then (e, f ∷ fs) else (found.0, e ∷ found.1)

abbrev pop_from : PriorityQueue → List HeapEntry → Option String × PriorityQueue
pop_from q [] = (none, q)
pop_from q (e ∷ es) =
    let found = least q.is_max e es in (some found.0.item, record q { heap = found.1 })

unfoldable pub pop : PriorityQueue → Option String × PriorityQueue
pop q = pop_from q q.heap

abbrev peek_at : Bool → List HeapEntry → Option String
peek_at is_max [] = none
peek_at is_max (e ∷ es) = some (least is_max e es).0.item

unfoldable pub peek : PriorityQueue → Option String
peek q = peek_at q.is_max q.heap

-- One entry comes before another: by a better priority, or by an equal one and an earlier push.
abbrev pub precedes : Bool → HeapEntry → HeapEntry → Bool
precedes is_max a b =
    if a.priority == b.priority
    then ltb a.count b.count
    else if is_max
    then ltb b.priority a.priority
    else ltb a.priority b.priority

-- The counters of a heap's entries are below a bound, and they grow along the list.
abbrev pub IsCounted : ℕ → List HeapEntry → Type 0
IsCounted bound [] = Unit
IsCounted bound (e ∷ es) = (e.count < bound) × All (λ f. e.count < f.count) es × IsCounted bound es

entry_leq_total :
    (is_max : Bool) (a b : HeapEntry) → entry_leq is_max a b ≡ false → entry_leq is_max b a ≡ true
unfolding entry_leq
entry_leq_total true a b h = ground arith
entry_leq_total false a b h = ground arith

entry_leq_trans :
    (is_max : Bool) (a b c : HeapEntry)
    → entry_leq is_max a b ≡ true
    → entry_leq is_max b c ≡ true
    → entry_leq is_max a c ≡ true
unfolding entry_leq
entry_leq_trans true a b c h k = ground arith
entry_leq_trans false a b c h k = ground arith

entry_leq_refl : (is_max : Bool) (a : HeapEntry) → entry_leq is_max a a ≡ true
unfolding entry_leq
entry_leq_refl true a = ground arith
entry_leq_refl false a = ground arith

-- The least entry and the rest are the entries that there were, and none of the rest is less.
pub least_lem :
    (is_max : Bool) (e : HeapEntry) (es : List HeapEntry)
    → Permᴰ ((least is_max e es).0 ∷ (least is_max e es).1) (e ∷ es)
      × All (λ f. entry_leq is_max (least is_max e es).0 f ≡ true) (least is_max e es).1
unfolding least
least_lem is_max e [] = (Permᴰ.refl (e ∷ []), tt)
least_lem is_max e (f ∷ fs) =
    let rest = least_lem is_max f fs in
    let found = least is_max f fs in
    elim (Bool-cases (entry_leq is_max e found.0)) [
      | inl less ↦ rw less (
        Permᴰ.refl (e ∷ f ∷ fs),
        All-of (λ g. entry_leq is_max e g ≡ true) (λ g. entry_leq is_max found.0 g ≡ true)
            (λ g h. entry_leq_trans is_max e found.0 g less h) (f ∷ fs)
            (All-Permᴰ (λ g. entry_leq is_max found.0 g ≡ true) rest.0
              (entry_leq_refl is_max found.0, rest.1)),
      )
      | inr more ↦ rw more (
        Permᴰ.trans (Permᴰ.swap refl refl) (Permᴰ.cons refl rest.0),
        (entry_leq_total is_max e found.0 more, rest.1),
      )
    ]

least-All :
    (P : HeapEntry → Type 0) (is_max : Bool) (e : HeapEntry) (es : List HeapEntry)
    → All P (e ∷ es)
    → P (least is_max e es).0 × All P (least is_max e es).1
least-All P is_max e es h =
    let moved = All-Permᴰ P (Permᴰ.symm (least_lem is_max e es).0) h in (moved.0, moved.1)

-- Taking the least entry away keeps the counters growing, and its own counter is none of the others.
least-IsCounted :
    (is_max : Bool) (bound : ℕ) (e : HeapEntry) (es : List HeapEntry)
    → IsCounted bound (e ∷ es)
    → IsCounted bound (least is_max e es).1
      × All (λ f. ((least is_max e es).0.count == f.count) ≡ false) (least is_max e es).1
unfolding least
least-IsCounted is_max bound e [] h = (tt, tt)
least-IsCounted is_max bound e (f ∷ fs) h =
    let found = least is_max f fs in
    let rest = least-IsCounted is_max bound f fs h.2 in
    let later = least-All (λ g. e.count < g.count) is_max f fs h.1 in
    elim (Bool-cases (entry_leq is_max e found.0)) [
      | inl less ↦ rw less (
        h.2,
        All-of (λ g. (e.count == g.count) ≡ false) (λ g. e.count < g.count) (λ g k. ground arith)
            (f ∷ fs) h.1,
      )
      | inr more ↦
          let apart : (found.0.count == e.count) ≡ false = ground (arith, later.0) in
          rw more ((h.0, later.1, rest.0), (apart, rest.1))
    ]

All-both :
    (P Q R : HeapEntry → Type 0)
    → ((e : HeapEntry) → P e → Q e → R e)
    → (es : List HeapEntry) → All P es
    → All Q es
    → All R es
All-both P Q R f [] h k = tt
All-both P Q R f (e ∷ es) h k = (f e h.0 k.0, All-both P Q R f es h.1 k.1)

entry_leq-precedes :
    (is_max : Bool) (a b : HeapEntry)
    → entry_leq is_max a b ≡ true
    → (a.count == b.count) ≡ false
    → precedes is_max a b ≡ true
unfolding entry_leq
entry_leq-precedes true a b h k = ground arith
entry_leq-precedes false a b h k = ground arith

-- The counters of the queue's entries grow along the pushes and are below the next one.
abbrev pub IsValid : PriorityQueue → Type 0
IsValid q = IsCounted q.counter q.heap

-- What `pop` gives: an entry that comes before every other entry of the queue.
pub record Popped (q : PriorityQueue) : Type 0 where
  pub entry : HeapEntry
  pub rest : List HeapEntry
  pub entries : Permᴰ (entry ∷ rest) q.heap
  pub popped : pop q ≡ (some entry.item, record q { heap = rest })
  pub peeked : peek q ≡ some entry.item
  pub first : All (λ f. precedes q.is_max entry f ≡ true) rest
  pub valid : IsCounted q.counter rest

-- A queue is empty, or what `pop` gives is as `Popped` says.
abbrev pub IsEmpty : PriorityQueue → Type 0
IsEmpty q = (q.heap ≡ []) × (pop q ≡ (none, q)) × (peek q ≡ none)

-- On a valid queue: if it is empty, `pop` and `peek` give nothing and `pop` changes nothing; else
-- both give the item of one entry, which comes before every other entry, by its priority or among
-- equal priorities by the earlier push, and `pop` leaves exactly the other entries, validly.
pub pop-Popped : (q : PriorityQueue) → IsValid q → IsEmpty q ⊎ Popped q
unfolding pop peek
pop-Popped q h = go q.heap refl
  where
    go : (es : List HeapEntry) → q.heap ≡ es → IsEmpty q ⊎ Popped q
    go [] e = inl (e, ap (pop_from q) e, ap (peek_at q.is_max) e)
    go (f ∷ fs) e =
        let found = least_lem q.is_max f fs in
        let counted = least-IsCounted q.is_max q.counter f fs (subst (IsCounted q.counter) e h) in
        inr (record {
          entry = (least q.is_max f fs).0;
          rest = (least q.is_max f fs).1;
          entries =
              subst (Permᴰ ((least q.is_max f fs).0 ∷ (least q.is_max f fs).1)) (sym e) found.0;
          popped = ap (pop_from q) e;
          peeked = ap (peek_at q.is_max) e;
          first =
              All-both (λ g. entry_leq q.is_max (least q.is_max f fs).0 g ≡ true)
                (λ g. ((least q.is_max f fs).0.count == g.count) ≡ false)
                (λ g. precedes q.is_max (least q.is_max f fs).0 g ≡ true)
                (entry_leq-precedes q.is_max (least q.is_max f fs).0) (least q.is_max f fs).1
                found.1 counted.1;
          valid = counted.0;
        })

-- A new queue is valid.
new_priority_queue-IsValid : (is_max : Bool) → IsValid (new_priority_queue is_max)
unfolding new_priority_queue
new_priority_queue-IsValid is_max = tt

IsCounted-append :
    (bound : ℕ) (es : List HeapEntry) (e : HeapEntry)
    → IsCounted bound es
    → e.count ≡ bound
    → IsCounted (bound + 1) (es ++ e ∷ [])
IsCounted-append bound [] e h k = (omega arith, tt, tt)
IsCounted-append bound (f ∷ fs) e h k = (
  omega (arith, h.0),
  All-append (λ g. f.count < g.count) fs (e ∷ []) h.1 (omega (arith, h.0), tt),
  IsCounted-append bound fs e h.2 k,
)

-- A push keeps a queue valid.
pub push-IsValid :
    (q : PriorityQueue) (priority : ℕ) (item : String) → IsValid q → IsValid (push q priority item)
unfolding push
push-IsValid q priority item h =
    IsCounted-append q.counter q.heap
      (record { priority = priority; count = q.counter; item = item }) h refl
