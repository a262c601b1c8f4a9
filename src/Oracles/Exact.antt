-- ===== src/Oracles/Exact.antt =====
-- The verdict of `drive_import` on a plan of rounds: it is that of the rounds run one after the other
-- on the built module, whose reports no other call can disturb.
use jaros_code.Prelude.{
  ℕ, suc, String, ◌≡◌, refl, sym, ◌∙◌, Bool, true, false, Option, none, some, List, [], ◌∷◌, ◌++◌,
  arith, leb, str_eq, eq_iff, All, All-of, All-append,
}
use jaros_code.Dict.{Dict, IsFresh}
use jaros_code.Oracles.Driver.{CallId, entity_id, op_id, read_id, final_id, id_eq, Check, check_id}
use jaros_code.Oracles.Rounds.{
  Round, Reader, read_calls, read_checks, round_calls, round_checks, rejected,
}
use jaros_code.Oracles.Reports.{IsClear, Elsewhere}

-- An id of the round with a number, of a later one, or of the final reads.
abbrev pub since : ℕ → CallId → Bool
since i entity_id = false
since i (op_id j) = leb i j
since i (read_id j name) = leb i j
since i (final_id name) = true

-- An id of a round before the one with a number, or the entity's.
abbrev before : ℕ → CallId → Bool
before i entity_id = true
before i (op_id j) = leb (suc j) i
before i (read_id j name) = leb (suc j) i
before i (final_id name) = false

since-before :
    (i : ℕ) (k j : CallId)
    → before i k ≡ true
    → since i j ≡ true
    → (id_eq j k ≡ false) × (id_eq k j ≡ false)
since-before i entity_id entity_id b s = (sym s, sym s)
since-before i entity_id (op_id y) b s = (refl, refl)
since-before i entity_id (read_id y n) b s = (refl, refl)
since-before i entity_id (final_id n) b s = (refl, refl)
since-before i (op_id x) entity_id b s = (refl, refl)
since-before i (op_id x) (op_id y) b s = (ground arith, ground arith)
since-before i (op_id x) (read_id y n) b s = (refl, refl)
since-before i (op_id x) (final_id n) b s = (refl, refl)
since-before i (read_id x m) entity_id b s = (refl, refl)
since-before i (read_id x m) (op_id y) b s = (refl, refl)
since-before i (read_id x m) (read_id y n) b s = (ground arith, ground arith)
since-before i (read_id x m) (final_id n) b s = (refl, refl)
since-before i (final_id m) j b s = ground arith

since-suc : (i : ℕ) (k : CallId) → since (suc i) k ≡ true → since i k ≡ true
since-suc i entity_id s = s
since-suc i (op_id j) s = ground arith
since-suc i (read_id j n) s = ground arith
since-suc i (final_id n) s = refl

module _ (P : CallId → Type 0) {E : Type 0} (reader : Reader) where
  pub read_calls-All :
      (ident : String → CallId) (es : Dict E)
      → ((name : String) → P (ident name))
      → All (λ c. P c.id) (read_calls reader ident es)
        × All (λ c. P (check_id c)) (read_checks ident es)
  read_calls-All ident [] h = (tt, tt)
  read_calls-All ident ((name, e) ∷ es) h =
      let rest = read_calls-All ident es h in ((h name, rest.0), (h name, rest.1))

  rejected-All :
      (k : CallId) (exception : Option String) (checks : List (Check E))
      → P k
      → All (λ c. P (check_id c)) checks
      → All (λ c. P (check_id c)) (rejected k exception checks)
  rejected-All k none checks p h = h
  rejected-All k (some exception) checks p h = (p, h)

abbrev IsSince : ℕ → CallId → Type 0
IsSince i k = since i k ≡ true

module _ {E : Type 0} (reader : Reader) where
  -- The ids of a plan, from a round on
  pub round_calls-IsSince :
      (i : ℕ) (rs : List (Round E)) (final : Dict E)
      → All (λ c. IsSince i c.id) (round_calls reader i rs final)
        × All (λ c. IsSince i (check_id c)) (round_checks i rs final)
  unfolding round_calls round_checks
  round_calls-IsSince i [] final = read_calls-All (IsSince i) reader final_id final (λ name. refl)
  round_calls-IsSince i (r ∷ rs) final =
      let own = read_calls-All (IsSince i) reader (read_id i) r.expected (λ name. ground arith) in
      let later = round_calls-IsSince (suc i) rs final in
      let calls =
        All-of (λ c. IsSince i c.id) (λ c. IsSince (suc i) c.id) (λ c. since-suc i c.id)
          (round_calls reader (suc i) rs final) later.0 in
      let checks =
        All-of (λ c. IsSince i (check_id c)) (λ c. IsSince (suc i) (check_id c))
          (λ c. since-suc i (check_id c)) (round_checks (suc i) rs final) later.1 in
      (
        (
          ground arith,
          All-append (λ c. IsSince i c.id) (read_calls reader (read_id i) r.expected)
              (round_calls reader (suc i) rs final) own.0 calls,
        ),
        rejected-All (IsSince i) reader (op_id i) r.exception
            (read_checks (read_id i) r.expected ++ round_checks (suc i) rs final) (ground arith)
            (All-append (λ c. IsSince i (check_id c)) (read_checks (read_id i) r.expected)
              (round_checks (suc i) rs final) own.1 checks),
      )

  -- No call and no check of a later round has an id of a round before.
  pub later-IsClear :
      (i : ℕ) (k : CallId) (rs : List (Round E)) (final : Dict E)
      → before i k ≡ true
      → IsClear k (round_calls reader i rs final) × Elsewhere k (round_checks i rs final)
  later-IsClear i k rs final b =
      let ids = round_calls-IsSince i rs final in
      (
        All-of (λ c. id_eq c.id k ≡ false) (λ c. IsSince i c.id)
            (λ c s. (since-before i k c.id b s).0) (round_calls reader i rs final) ids.0,
        All-of (λ c. id_eq k (check_id c) ≡ false) (λ c. IsSince i (check_id c))
            (λ c s. (since-before i k (check_id c) b s).1) (round_checks i rs final) ids.1,
      )

  -- A name that is fresh in a dict is no other read's.
  pub reads-IsClear :
      (ident : String → CallId)
      → ((a b : String) → id_eq (ident a) (ident b) ≡ str_eq a b)
      → (name : String) (es : Dict E) → IsFresh name es
      → IsClear (ident name) (read_calls reader ident es)
        × Elsewhere (ident name) (read_checks ident es)
  reads-IsClear ident n name [] h = (tt, tt)
  reads-IsClear ident n name ((other, e) ∷ es) h =
      let rest = reads-IsClear ident n name es h.1 in
      (
        (n other name ∙ h.0, rest.0),
        (n name other ∙ ground (arith, eq_iff name other, eq_iff other name, h.0), rest.1),
      )
