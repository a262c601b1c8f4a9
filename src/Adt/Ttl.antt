-- ===== src/Adt/Ttl.antt =====
-- `_TtlStoreReferenceModel` of harness/adt_oracle.py: a store whose clock is the number of ticks.
use jaros_code.Prelude.{
  ℕ, suc, ◌+◌, String, ◌≡◌, refl, ◌∙◌, Bool, true, false, Option, none, some, List, [], ◌∷◌, arith,
  ltb, str_eq, eq_refl, if◌then◌else◌, All,
}
use jaros_code.Dict.{Dict, lookup, assign, lookup-assign}

pub record TtlStore : Type 0 where
  pub entries : Dict (String × ℕ)
  pub now : ℕ

unfoldable pub new_ttl_store : TtlStore
new_ttl_store = record { entries = []; now = 0 }

-- `set`, at a ttl that is not negative.
unfoldable pub set : TtlStore → String → String → ℕ → TtlStore
set s key value ttl = record s { entries = assign s.entries key (value, s.now + ttl) }

abbrev pub live : ℕ → Option (String × ℕ) → Option String
live now none = none
live now (some (value, expiry)) = if ltb now expiry then some value else none

unfoldable pub get : TtlStore → String → Option String
get s key = live s.now (lookup s.entries key)

unfoldable pub tick : TtlStore → TtlStore
tick s = record s { now = s.now + 1 }

pub data TtlOp : Type 0 where
  set_op : (key value : String) → ℕ → TtlOp
  get_op : (key : String) → TtlOp
  tick_op : TtlOp

-- What an operation of the driven sequence leaves, and the line that is expected for it.
unfoldable pub ttl_step : TtlStore → TtlOp → TtlStore
ttl_step s (set_op key value ttl) = set s key value ttl
ttl_step s (get_op key) = s
ttl_step s tick_op = tick s

unfoldable pub ttl_line : TtlStore → TtlOp → Option String
ttl_line s (set_op key value ttl) = some "ok"
ttl_line s (get_op key) = get s key
ttl_line s tick_op = some "ok"

unfoldable pub run_ttl : TtlStore → List TtlOp → TtlStore
run_ttl s [] = s
run_ttl s (op ∷ ops) = run_ttl (ttl_step s op) ops

abbrev pub ticks : List TtlOp → ℕ
ticks [] = 0
ticks (tick_op ∷ ops) = suc (ticks ops)
ticks (set_op key value ttl ∷ ops) = ticks ops
ticks (get_op key ∷ ops) = ticks ops

-- An operation does not set a key.
abbrev pub spares : String → TtlOp → Bool
spares k (set_op key value ttl) = if str_eq key k then false else true
spares k (get_op key) = true
spares k tick_op = true

run_ttl-now : (s : TtlStore) (ops : List TtlOp) → (run_ttl s ops).now ≡ s.now + ticks ops
unfolding run_ttl ttl_step set tick
run_ttl-now s [] = omega arith
run_ttl-now s (set_op key value ttl ∷ ops) = run_ttl-now (set s key value ttl) ops
run_ttl-now s (get_op key ∷ ops) = run_ttl-now s ops
run_ttl-now s (tick_op ∷ ops) = omega (arith, run_ttl-now (tick s) ops)

run_ttl-lookup :
    (k : String) (s : TtlStore) (ops : List TtlOp)
    → All (λ op. spares k op ≡ true) ops
    → lookup (run_ttl s ops).entries k ≡ lookup s.entries k
unfolding run_ttl ttl_step set tick
run_ttl-lookup k s [] h = refl
run_ttl-lookup k s (set_op key value ttl ∷ ops) h =
    run_ttl-lookup k (set s key value ttl) ops h.1
    ∙ ground (arith, lookup-assign s.entries key k (value, s.now + ttl), h.0)
run_ttl-lookup k s (get_op key ∷ ops) h = run_ttl-lookup k s ops h.1
run_ttl-lookup k s (tick_op ∷ ops) h = run_ttl-lookup k (tick s) ops h.1

-- A key that was set with a ttl, and not set again by the operations that follow, reads as its value
-- exactly while fewer ticks than the ttl have passed, whatever else those operations do; from then
-- on it reads as absent. A ttl of 0 is expired at once.
pub get-set :
    (s : TtlStore) (k v : String) (ttl : ℕ) (ops : List TtlOp)
    → All (λ op. spares k op ≡ true) ops
    → get (run_ttl (set s k v ttl) ops) k ≡ (if ltb (ticks ops) ttl then some v else none)
unfolding get set
get-set s k v ttl ops h =
    let clock = run_ttl-now (set s k v ttl) ops in
    let entry =
      run_ttl-lookup k (set s k v ttl) ops h ∙ lookup-assign s.entries k k (v, s.now + ttl) in
    rw (clock, entry, eq_refl k) (ground arith)
