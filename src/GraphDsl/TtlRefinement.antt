-- ===== src/GraphDsl/TtlRefinement.antt =====
-- The leaf program TTL_STORE_LEAF against the reference model of the ADT oracle: a tick of the model's
-- clock is a second of the leaf's, and the leaf is driven by the oracle's own command lines.
use jaros_code.Prelude.{
  if◌then◌else◌, eq_iff, ℕ, ◌+◌, String, ◌≡◌, refl, ap, sym, ◌∙◌, Bool, true, false, Option, some,
  List, [], ◌∷◌, arith, str_eq, inl, inr, Bool-cases, All,
}
use jaros_code.Text.{◌<>◌, is_space}
use jaros_code.Dict.{lookup, assign, lookup-assign}
use jaros_code.Words.{words, is_word, words-cons, words-word}
use jaros_code.Adt.Ttl.{TtlStore, TtlOp, set_op, get_op, tick_op, new_ttl_store, ttl_step, ttl_line}
use jaros_code.Adt.Ttl
use jaros_code.Adt.Drive.{Exchange, ttl_command, ttl_sequence, line_of}
use jaros_code.GraphDsl.TtlLeaf.{Store, printed, expiry_at, leaf_command, run_leaf}

-- Both say the same of every key, now and at each later moment.
abbrev Agree : ℕ → TtlStore → Store → Type 0
Agree start s store =
    (k : String) (later : ℕ)
    → printed (start + s.now + later) (lookup store k)
      ≡ line_of (Ttl.live (s.now + later) (lookup s.entries k))

Agree-tick :
    (start : ℕ) (s : TtlStore) (store : Store)
    → Agree start s store
    → Agree start (Ttl.tick s) store
unfolding Ttl.tick
Agree-tick start s store h k later =
    let there : start + (s.now + 1) + later ≡ start + s.now + (1 + later) = omega arith in
    let here : s.now + 1 + later ≡ s.now + (1 + later) = omega arith in
    rw (there, here) (h k (1 + later))

entry_agree :
    (start now later ttl : ℕ) (value : String)
    → printed (start + now + later) (some (value, expiry_at (start + now) (false, ttl)))
      ≡ line_of (Ttl.live (now + later) (some (value, now + ttl)))
entry_agree start now later ttl value = ground arith

Agree-set :
    (start : ℕ) (s : TtlStore) (store : Store) (key value : String) (ttl : ℕ)
    → Agree start s store
    → Agree start
        (Ttl.set s key value ttl)
        (assign store key (value, expiry_at (start + s.now) (false, ttl)))
unfolding Ttl.set
Agree-set start s store key value ttl h k later = elim (Bool-cases (str_eq key k)) [
  | inl same ↦
      rw
        (
          lookup-assign store key k (value, expiry_at (start + s.now) (false, ttl)),
          lookup-assign s.entries key k (value, s.now + ttl),
          same,
        )
        (entry_agree start s.now later ttl value)
  | inr other ↦
      rw
        (
          lookup-assign store key k (value, expiry_at (start + s.now) (false, ttl)),
          lookup-assign s.entries key k (value, s.now + ttl),
          other,
        )
        (h k later)
]

now-Agree :
    (start : ℕ) (s : TtlStore) (store : Store) (k : String)
    → Agree start s store
    → printed (start + s.now) (lookup store k) ≡ line_of (Ttl.live s.now (lookup s.entries k))
now-Agree start s store k agree =
    let there : start + s.now ≡ start + s.now + 0 = omega arith in
    let here : s.now ≡ s.now + 0 = omega arith in
    ap (λ t. printed t (lookup store k)) there
    ∙ agree k 0
    ∙ ap (λ t. line_of (Ttl.live t (lookup s.entries k))) (sym here)

cons-no_single : {a b c : String} {rest : List String} → a ∷ b ∷ rest ≡ c ∷ [] → ⊥
cons-no_single h = absurd (cc)

-- Keys and values are words.
abbrev pub IsPlain : TtlOp → Type 0
IsPlain (set_op key value ttl) = (is_word key ≡ true) × (is_word value ≡ true)
IsPlain (get_op key) = is_word key ≡ true
IsPlain tick_op = Unit

module _ (parse_int : String → Option (Bool × ℕ)) (show : ℕ → String) where
  -- What `str` prints of an int that is not negative is one word, and `int` reads it back.
  abbrev pub Shows : Type 0
  Shows = (n : ℕ) → (is_word (show n) ≡ true) × (parse_int (show n) ≡ some (false, n))

  -- The clock at which each operation is handled, where it stood at `start` when the model's stood
  -- at 0.
  unfoldable pub clocks : ℕ → TtlStore → List TtlOp → List ℕ
  clocks start s [] = []
  clocks start s (op ∷ ops) = (start + s.now) ∷ clocks start (ttl_step s op) ops

  -- Every command line of the oracle's sequence, `tick` included, with its clock
  abbrev pub timed : List ℕ → List Exchange → List (ℕ × String)
  timed [] es = []
  timed (clock ∷ rest) [] = []
  timed (clock ∷ rest) ((line, expected) ∷ es) = (clock, line) ∷ timed rest es

  abbrev pub session : ℕ → TtlStore → List TtlOp → List (ℕ × String)
  session start s ops = timed (clocks start s ops) (ttl_sequence [] show s ops)

  -- The lines that the oracle expects for the commands other than `tick`.
  abbrev pub answers : List Exchange → List String
  answers [] = []
  answers ((line, expected) ∷ es) =
      let rest = answers es in if str_eq line "tick" then rest else expected ∷ rest

  words-set :
      (key value : String) (ttl : ℕ)
      → Shows
      → IsPlain (set_op key value ttl)
      → words (ttl_command [] show (set_op key value ttl)) ≡ "set" ∷ key ∷ value ∷ show ttl ∷ []
  unfolding is_space lookup
  words-set key value ttl shows (k, v) =
      words-cons "set" (key <> " " <> value <> " " <> show ttl) refl
      ∙ ap (λ ws. "set" ∷ ws)
          (words-cons key (value <> " " <> show ttl) k
            ∙ ap (λ ws. key ∷ ws)
                (words-cons value (show ttl) v
                  ∙ ap (λ ws. value ∷ ws) (words-word (show ttl) (shows ttl).0)))

  words-get :
      (key : String)
      → is_word key ≡ true
      → words (ttl_command [] show (get_op key)) ≡ "get" ∷ key ∷ []
  unfolding is_space lookup
  words-get key k = words-cons "get" key refl ∙ ap (λ ws. "get" ∷ ws) (words-word key k)

  run_leaf-step :
      (store next : Store) (clock : ℕ) (line out : String) (rest : List (ℕ × String))
      → leaf_command parse_int clock store (words line) ≡ some (next, out ∷ [])
      → run_leaf parse_int store ((clock, line) ∷ rest)
        ≡ (out ∷ (run_leaf parse_int next rest).0, (run_leaf parse_int next rest).1)
  unfolding run_leaf
  run_leaf-step store next clock line out rest h = rw h refl

  leaf_command-set :
      (clock : ℕ) (store : Store) (key value : String) (ttl : ℕ)
      → Shows
      → leaf_command parse_int clock store ("set" ∷ key ∷ value ∷ show ttl ∷ [])
        ≡ some (assign store key (value, expiry_at clock (false, ttl)), "ok" ∷ [])
  unfolding leaf_command
  leaf_command-set clock store key value ttl shows = rw (shows ttl).1 refl

  leaf_command-get :
      (clock : ℕ) (store : Store) (key : String)
      → leaf_command parse_int clock store ("get" ∷ key ∷ [])
        ≡ some (store, printed clock (lookup store key) ∷ [])
  unfolding leaf_command
  leaf_command-get clock store key = refl

  tick-silent :
      (store : Store) (clock : ℕ) (rest : List (ℕ × String))
      → run_leaf parse_int store ((clock, "tick") ∷ rest) ≡ run_leaf parse_int store rest
  unfolding run_leaf leaf_command words is_space
  tick-silent store clock rest = refl

  -- A line with other first word is no tick.
  no_tick :
      (line first second : String) (rest : List String)
      → words line ≡ first ∷ second ∷ rest
      → str_eq line "tick" ≡ false
  unfolding words is_space
  no_tick line first second rest h = elim (Bool-cases (str_eq line "tick")) [
    | inl same ↦ absurd (cons-no_single (sym h ∙ ap words ((eq_iff line "tick").0 same)))
    | inr other ↦ other
  ]

  session-Agree :
      (start : ℕ) (s : TtlStore) (store : Store) (ops : List TtlOp)
      → Shows
      → All IsPlain ops
      → Agree start s store
      → run_leaf parse_int store (session start s ops)
        ≡ (answers (ttl_sequence [] show s ops), true)
  unfolding run_leaf clocks ttl_sequence ttl_step ttl_line Ttl.get lookup
  session-Agree start s store [] shows plain agree = refl
  session-Agree start s store (tick_op ∷ ops) shows plain agree =
      tick-silent store (start + s.now) (session start (Ttl.tick s) ops)
      ∙ session-Agree start (Ttl.tick s) store ops shows plain.1 (Agree-tick start s store agree)
  session-Agree start s store (set_op key value ttl ∷ ops) shows plain agree =
      let next = assign store key (value, expiry_at (start + s.now) (false, ttl)) in
      let later =
        session-Agree start (Ttl.set s key value ttl) next ops shows plain.1
          (Agree-set start s store key value ttl agree) in
      let line = ttl_command [] show (set_op key value ttl) in
      let spoken = words-set key value ttl shows plain.0 in
      run_leaf-step store next (start + s.now) line "ok"
        (session start (Ttl.set s key value ttl) ops)
        (ap (leaf_command parse_int (start + s.now) store) spoken
          ∙ leaf_command-set (start + s.now) store key value ttl shows)
      ∙ ap (λ r. ("ok" ∷ r.0, r.1)) later
      ∙ ap
          (λ b. (
            if b
                then answers (ttl_sequence [] show (Ttl.set s key value ttl) ops)
                else "ok" ∷ answers (ttl_sequence [] show (Ttl.set s key value ttl) ops),
            true,
          ))
          (sym (no_tick line "set" key (value ∷ show ttl ∷ []) spoken))
  session-Agree start s store (get_op key ∷ ops) shows plain agree =
      let line = ttl_command [] show (get_op key) in
      let spoken = words-get key plain.0 in
      let expected = line_of (Ttl.live s.now (lookup s.entries key)) in
      run_leaf-step store store (start + s.now) line (printed (start + s.now) (lookup store key))
        (session start s ops)
        (ap (leaf_command parse_int (start + s.now) store) spoken
          ∙ leaf_command-get (start + s.now) store key)
      ∙ ap (λ r. (printed (start + s.now) (lookup store key) ∷ r.0, r.1))
          (session-Agree start s store ops shows plain.1 agree)
      ∙ ap (λ l. (l ∷ answers (ttl_sequence [] show s ops), true))
          (now-Agree start s store key agree)
      ∙ ap
          (λ b. (
            if b
                then answers (ttl_sequence [] show s ops)
                else expected ∷ answers (ttl_sequence [] show s ops),
            true,
          ))
          (sym (no_tick line "get" key [] spoken))

  -- Driven by all command lines that the oracle's sequence has for operations whose keys and values
  -- are words, with a second for each tick, the leaf program prints for each set and get exactly the
  -- line that the reference model expects, prints nothing for a tick, where the oracle expects ok,
  -- and ends without an exception.
  pub run_leaf-Refines :
      (start : ℕ) (ops : List TtlOp)
      → Shows
      → All IsPlain ops
      → run_leaf parse_int [] (session start new_ttl_store ops)
        ≡ (answers (ttl_sequence [] show new_ttl_store ops), true)
  unfolding new_ttl_store lookup
  run_leaf-Refines start ops shows plain =
      session-Agree start new_ttl_store [] ops shows plain (λ k later. refl)
