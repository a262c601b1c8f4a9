-- ===== src/Adt/Tests.antt =====
-- Runs of the reference models, and their theorems at those runs.
use jaros_code.Prelude.{
  ℕ, ◌≤◌, String, ◌≡◌, refl, true, false, none, some, List, [], ◌∷◌, ◌++◌, ◌⊎◌, map, arith, length,
  ltb, last_n, if◌then◌else◌,
}
use jaros_code.Dict.{lookup, assign, remove}
use jaros_code.Adt.Lru
use jaros_code.Adt.Lru.{Lru, new_lru, IsValid, get_lem, put_lem, after_put}
use jaros_code.Adt.Ttl
use jaros_code.Adt.Ttl.{
  TtlOp, set_op, get_op, tick_op, new_ttl_store, run_ttl, ttl_step, ttl_line, ticks, get-set,
}
use jaros_code.Adt.Queues
use jaros_code.Adt.Queues.{
  QueueOp, add_op, remove_op, peek_op, enqueue, queue_step, run_queue, removed, added, add_all,
  removed-append-run_queue, run_queue_bounded, run_queue-add_all,
}
use jaros_code.Adt.Heap
use jaros_code.Adt.Heap.{
  PriorityQueue, HeapEntry, new_priority_queue, entry_leq, least, IsEmpty, Popped, pop-Popped,
}
use jaros_code.Adt.Drive.{
  put_pair, get_key, push_op, pop_op, top_op, Drive, lru, priority_queue, build_sequence,
  lru_sequence, heap_sequence, verify_lines, Explains, verify_lines-Explains,
}

abbrev three_cached : Lru
three_cached = record { capacity = 3; entries = ("a", "v0") ∷ ("b", "v1") ∷ ("c", "v2") ∷ [] }

three_cached-IsValid : IsValid three_cached
three_cached-IsValid = record {
  positive = omega arith;
  fits = omega arith;
  dict = ((refl, (refl, tt)), ((refl, tt), (tt, tt)));
}

-- A read protects a key from the next eviction.
read_protects :
    (Lru.put (Lru.get three_cached "a").1 "d" "v3").entries
    ≡ ("c", "v2") ∷ ("a", "v0") ∷ ("d", "v3") ∷ []
unfolding Lru.put Lru.get lookup remove
read_protects = refl

get_lem_example :
    ((Lru.get three_cached "b").0 ≡ lookup three_cached.entries "b")
    × (lookup (Lru.get three_cached "b").1.entries "a" ≡ lookup three_cached.entries "a")
    × IsValid (Lru.get three_cached "b").1
get_lem_example = get_lem three_cached "b" "a" three_cached-IsValid

put_lem_example :
    IsValid (Lru.put three_cached "d" "v3")
    × (lookup (Lru.put three_cached "d" "v3").entries "a" ≡ after_put three_cached "d" "v3" "a")
put_lem_example = put_lem three_cached "d" "v3" "a" three_cached-IsValid

abbrev some_ops : List TtlOp
some_ops = tick_op ∷ get_op "a" ∷ set_op "b" "w" 9 ∷ tick_op ∷ []

get-set_example :
    Ttl.get (run_ttl (Ttl.set new_ttl_store "a" "v" 3) some_ops) "a"
    ≡ (if ltb (ticks some_ops) 3 then some "v" else none)
get-set_example = get-set new_ttl_store "a" "v" 3 some_ops (refl, (refl, (refl, (refl, tt))))

expires_on_time : Ttl.get (run_ttl (Ttl.set new_ttl_store "a" "v" 2) some_ops) "a" ≡ none
unfolding Ttl.get Ttl.set run_ttl ttl_step Ttl.tick new_ttl_store lookup assign
expires_on_time = refl

abbrev queue_ops : List QueueOp
queue_ops = add_op "x" ∷ remove_op ∷ peek_op ∷ add_op "y" ∷ remove_op ∷ []

removed-append-run_queue_example :
    removed enqueue ("w" ∷ []) queue_ops ++ run_queue enqueue ("w" ∷ []) queue_ops
    ≡ ("w" ∷ []) ++ added queue_ops
removed-append-run_queue_example = removed-append-run_queue ("w" ∷ []) queue_ops

run_queue_bounded_example : length (run_queue (Queues.push 2) ("w" ∷ []) queue_ops) ≤ 2
run_queue_bounded_example = run_queue_bounded 2 ("w" ∷ []) queue_ops (omega arith) (omega arith)

run_queue-add_all_example :
    run_queue (Queues.push 2) ("w" ∷ []) (add_all ("x" ∷ "y" ∷ []))
    ≡ last_n 2 (("w" ∷ []) ++ "x" ∷ "y" ∷ [])
run_queue-add_all_example =
    run_queue-add_all 2 ("w" ∷ []) ("x" ∷ "y" ∷ []) (omega arith) (omega arith)

abbrev two_ties : PriorityQueue
two_ties = record {
  is_max = false;
  heap =
      record { priority = 4; count = 0; item = "late" }
      ∷ record { priority = 2; count = 1; item = "first" }
      ∷ record { priority = 2; count = 2; item = "second" }
      ∷ [];
  counter = 3;
}

earliest_tie : (Heap.pop two_ties).0 ≡ some "first"
unfolding Heap.pop least entry_leq
earliest_tie = refl

pop-Popped_example : IsEmpty two_ties ⊎ Popped two_ties
pop-Popped_example = pop-Popped two_ties (
  omega arith,
  (omega arith, (omega arith, tt)),
  (omega arith, (omega arith, tt), (omega arith, tt, tt)),
)

abbrev digit : ℕ → String
digit n = if ltb n 3 then "2" else "4"

abbrev cache_drive : Drive
cache_drive = lru (put_pair "a" "v0" ∷ get_key "a" ∷ get_key "b" ∷ [])

lru_lines :
    build_sequence (("put", "store") ∷ []) digit 1 cache_drive
    ≡ ("store a v0", "ok") ∷ ("get a", "v0") ∷ ("get b", "none") ∷ []
unfolding build_sequence lru_sequence new_lru Lru.put Lru.get lookup remove
lru_lines = refl

-- The reference keeps the larger number in front under the convention "max".
max_lines :
    map
      (λ exchange. exchange.1)
      (build_sequence [] digit 0
        (priority_queue true (push_op 2 "low" ∷ push_op 4 "high" ∷ top_op ∷ pop_op ∷ [])))
    ≡ "ok" ∷ "ok" ∷ "high" ∷ "high" ∷ []
unfolding build_sequence heap_sequence new_priority_queue Heap.push Heap.pop Heap.peek least
    entry_leq lookup
max_lines = refl

verify_lines-Explains_example :
    Explains 0
      (map (λ exchange. exchange.1) (build_sequence [] digit 1 cache_drive))
      ("ok" ∷ "none" ∷ [])
      (verify_lines [] digit 1 cache_drive ("ok" ∷ "none" ∷ []))
verify_lines-Explains_example = verify_lines-Explains [] digit 1 cache_drive ("ok" ∷ "none" ∷ [])
