-- ===== src/GraphDsl/TtlLeaf.antt =====
-- The leaf program TTL_STORE_LEAF of harness/graph_dsl.py: its loop over the lines of stdin. Each line
-- carries what `time.time()` gives while it is handled, in whole seconds. Python's `int` of a text
-- is a parameter: the sign and the absolute value, or `none` where it raises.
use jaros_code.Prelude.{
  ℕ, ◌+◌, String, Bool, true, false, ◌||◌, Option, none, some, List, [], ◌∷◌, ◌++◌, ltb, ◌==◌,
  str_eq, if◌then◌else◌,
}
use jaros_code.Dict.{Dict, lookup, assign, remove}
use jaros_code.Words.{words}

-- The value of a key and the second at which it expires.
abbrev pub Store : Type 0
Store = Dict (String × ℕ)

abbrev pub printed : ℕ → Option (String × ℕ) → String
printed clock none = "none"
printed clock (some (value, expiry)) = if ltb clock expiry then value else "none"

-- `0.0 if ttl <= 0 else time.time() + ttl`
abbrev pub expiry_at : ℕ → Bool × ℕ → ℕ
expiry_at clock (negative, n) = if negative || n == 0 then 0 else clock + n

-- What is printed by a line and then by the rest of the run; an exception ends it.
abbrev pub after : Option (Store × List String) → (Store → List String × Bool) → List String × Bool
after none rest = ([], false)
after (some (next, out)) rest = (out ++ (rest next).0, (rest next).1)

module _ (parse_int : String → Option (Bool × ℕ)) where
  abbrev set_entry :
      ℕ → Store → (key value : String) → Option (Bool × ℕ) → Option (Store × List String)
  set_entry clock store key value none = none
  set_entry clock store key value (some ttl) =
      some (assign store key (value, expiry_at clock ttl), "ok" ∷ [])

  -- One line as its words: the store and what is printed, or `none` where `int` raises.
  unfoldable pub leaf_command : ℕ → Store → List String → Option (Store × List String)
  leaf_command clock store (cmd ∷ key ∷ value ∷ ttl ∷ []) =
      if str_eq cmd "set" then set_entry clock store key value (parse_int ttl) else some (store, [])
  leaf_command clock store (cmd ∷ key ∷ []) =
      if str_eq cmd "get"
      then some (store, printed clock (lookup store key) ∷ [])
      else if str_eq cmd "delete"
      then some (remove store key, "ok" ∷ [])
      else some (store, [])
  leaf_command clock store _ = some (store, [])

  -- What the program prints, and whether it ends without an exception.
  unfoldable pub run_leaf : Store → List (ℕ × String) → List String × Bool
  run_leaf store [] = ([], true)
  run_leaf store ((clock, line) ∷ rest) =
      after (leaf_command clock store (words line)) (λ next. run_leaf next rest)
