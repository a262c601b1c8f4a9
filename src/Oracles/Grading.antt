-- ===== src/Oracles/Grading.antt =====
-- What the state-machine oracle accepts: the driver's verdict on a plan, and the script run on the
-- built module without a driver.
use jaros_code.Prelude.{
  ℕ, suc, String, ◌≡◌, refl, ap, sym, ◌∙◌, Bool, true, false, Option, none, some, List, [], ◌∷◌,
  ◌++◌, arith, str_eq, All, All-append, append-nil,
}
use jaros_code.Dict.{Dict, IsDict}
use jaros_code.Oracles.Driver.{
  CallId, entity_id, op_id, read_id, final_id, id_eq, ApiCall, Invoke, call, drive, Check, is_new,
  all_new, nonempty, drive_import,
}
use jaros_code.Oracles.Rounds.{
  Round, Reader, read_calls, read_checks, round_calls, round_checks, rejected, rounds_agree,
}
use jaros_code.Oracles.Reports.{IsClear, eval_checks-reported}
use jaros_code.Oracles.Exact.{later-IsClear, reads-IsClear, read_calls-All}
use jaros_code.Oracles.Verdict.{verdict-rounds}

is_new-IsClear : (k : CallId) (cs : List ApiCall) → IsClear k cs → is_new k cs ≡ true
is_new-IsClear k [] h = refl
is_new-IsClear k (c ∷ cs) h = rw (h.0, is_new-IsClear k cs h.1) refl

nonempty-rejected :
    {E : Type 0} (k : CallId) (exception : Option String) (ident : String → CallId) (es : Dict E)
    (checks : List (Check E))
    → nonempty checks ≡ true
    → nonempty (rejected k exception (read_checks ident es ++ checks)) ≡ true
nonempty-rejected k none ident [] checks h = h
nonempty-rejected k none ident ((name, e) ∷ es) checks h = refl
nonempty-rejected k (some n) ident es checks h = refl

module _ {E : Type 0} (reader : Reader) where
  all_new-reads :
      (ident : String → CallId)
      → ((a b : String) → id_eq (ident a) (ident b) ≡ str_eq a b)
      → (es : Dict E) → IsDict es
      → (calls : List ApiCall) → ((name : String) → IsClear (ident name) calls)
      → all_new calls ≡ true
      → all_new (read_calls reader ident es ++ calls) ≡ true
  unfolding all_new
  all_new-reads ident n [] d calls clear new = new
  all_new-reads ident n ((name, e) ∷ es) d calls clear new =
      rw
        (
          is_new-IsClear (ident name) (read_calls reader ident es ++ calls) (
              All-append (λ c. id_eq c.id (ident name) ≡ false) (read_calls reader ident es) calls
                (reads-IsClear reader ident n name es d.0).0 (clear name)),
          all_new-reads ident n es d.1 calls clear new,
        )
        refl

  pub all_new-rounds :
      (i : ℕ) (rs : List (Round E)) (final : Dict E)
      → All (λ r. IsDict r.expected) rs
      → IsDict final
      → all_new (round_calls reader i rs final) ≡ true
  unfolding all_new round_calls
  all_new-rounds i [] final h d =
      ap all_new (sym (append-nil (read_calls reader final_id final)))
      ∙ all_new-reads final_id (λ a b. refl) final d [] (λ name. tt) refl
  all_new-rounds i (r ∷ rs) final h d =
      let own = read_calls reader (read_id i) r.expected in
      rw
        (
          is_new-IsClear (op_id i) (own ++ round_calls reader (suc i) rs final) (
              All-append (λ c. id_eq c.id (op_id i) ≡ false) own
                (round_calls reader (suc i) rs final)
                (read_calls-All (λ k. id_eq k (op_id i) ≡ false) reader (read_id i) r.expected
                  (λ name. refl)).0
                (later-IsClear reader (suc i) (op_id i) rs final (ground arith)).0),
          all_new-reads (read_id i) (λ a b. ground arith) r.expected h.0
              (round_calls reader (suc i) rs final)
              (λ name. (later-IsClear reader (suc i) (read_id i name) rs final (ground arith)).0)
              (all_new-rounds (suc i) rs final h.1 d),
        )
        refl

  nonempty-rounds :
      (i : ℕ) (rs : List (Round E)) (name : String) (e : E) (final : Dict E)
      → nonempty (round_checks i rs ((name, e) ∷ final)) ≡ true
  unfolding round_checks
  nonempty-rounds i [] name e final = refl
  nonempty-rounds i (r ∷ rs) name e final =
      nonempty-rejected (op_id i) r.exception (read_id i) r.expected
        (round_checks (suc i) rs ((name, e) ∷ final)) (nonempty-rounds (suc i) rs name e final)

  -- The driver's verdict on a plan: that of the rounds, on what the constructor left.
  pub drive_import-rounds :
      {V M : Type 0} (equal : V → E → Bool) (invoke : Invoke V M) (c : ApiCall)
      → c.id ≡ entity_id
      → (rs : List (Round E)) (name : String) (e : E) (final : Dict E)
      → All (λ r. IsDict r.expected) rs
      → IsDict ((name, e) ∷ final)
      → (m : M)
      → drive_import equal invoke
          (c ∷ round_calls reader 0 rs ((name, e) ∷ final))
          (round_checks 0 rs ((name, e) ∷ final))
          m
        ≡ rounds_agree equal invoke reader rs
            ((name, e) ∷ final)
            (call invoke c.target c.args c.kwargs (some m)).1
  unfolding drive_import drive all_new
  drive_import-rounds equal invoke c entity rs name e final h d m =
      let ran = call invoke c.target c.args c.kwargs (some m) in
      let ids = later-IsClear reader 0 entity_id rs ((name, e) ∷ final) refl in
      rw
        (
          entity,
          is_new-IsClear entity_id (round_calls reader 0 rs ((name, e) ∷ final)) ids.0,
          all_new-rounds 0 rs ((name, e) ∷ final) h d,
          nonempty-rounds 0 rs name e final,
          eval_checks-reported equal entity_id ran.0
              (drive invoke (round_calls reader 0 rs ((name, e) ∷ final)) ran.1)
              (round_checks 0 rs ((name, e) ∷ final)) ids.1,
        )
        (verdict-rounds equal invoke reader 0 rs ((name, e) ∷ final) h d ran.1)
