-- ===== src/Oracles/Verdict.antt =====
-- The verdict of `drive_import` on a plan of rounds.
use jaros_code.Prelude.{
  ℕ, suc, String, ◌≡◌, refl, ap, sym, ◌∙◌, Bool, true, false, ◌&&◌, Option, none, some, List, [],
  ◌∷◌, ◌++◌, arith, str_eq, eq_refl, All, All-append, append-nil,
}
use jaros_code.Value.{Fields}
use jaros_code.Dict.{Dict, IsDict}
use jaros_code.Oracles.Driver.{
  CallId, op_id, read_id, final_id, id_eq, ApiCall, Outcome, Running, Invoke, call, reported, drive,
  Check, check_id, eval_checks,
}
use jaros_code.Oracles.Rounds.{
  Round, Reader, read_calls, read_checks, round_calls, round_checks, rejected, reads_as, raises_as,
  reads_agree, rounds_agree,
}
use jaros_code.Oracles.Reports.{
  IsClear, Elsewhere, results-drive, eval_checks-reported, eval_check-returns, eval_check-raises,
}
use jaros_code.Oracles.Exact.{later-IsClear, reads-IsClear, read_calls-All}

pub and_assoc : (a b c : Bool) → (a && (b && c)) ≡ ((a && b) && c)
and_assoc true b c = refl
and_assoc false b c = refl

pub and_true : (a : Bool) → (a && true) ≡ a
and_true true = refl
and_true false = refl

module _ {V E M : Type 0} (equal : V → E → Bool) (invoke : Invoke V M) (reader : Reader) where
  abbrev verdict : List ApiCall → List (Check E) → Running M → Bool
  verdict calls checks m = eval_checks equal (drive invoke calls m) checks

  verdict-reads :
      (ident : String → CallId)
      → ((a b : String) → id_eq (ident a) (ident b) ≡ str_eq a b)
      → (es : Dict E) → IsDict es
      → (calls : List ApiCall) (checks : List (Check E))
      → ((name : String) → IsClear (ident name) calls × Elsewhere (ident name) checks)
      → (m : Running M)
      → verdict (read_calls reader ident es ++ calls) (read_checks ident es ++ checks) m ≡ (
          (reads_agree equal invoke reader es m).0
          && verdict calls checks (reads_agree equal invoke reader es m).1)
  unfolding drive eval_checks reads_agree
  verdict-reads ident n [] d calls checks clear m = refl
  verdict-reads ident n ((name, e) ∷ es) d calls checks clear m =
      let ran = call invoke (reader.read_target name) reader.read_args Fields.end m in
      let tail = read_calls reader ident es ++ calls in
      let own = reads-IsClear reader ident n name es d.0 in
      let silent = results-drive (ident name) invoke tail ran.1 (
        All-append (λ c. id_eq c.id (ident name) ≡ false) (read_calls reader ident es) calls own.0
          (clear name).0) in
      let elsewhere =
        All-append (λ c. id_eq (ident name) (check_id c) ≡ false) (read_checks ident es) checks
          own.1 (clear name).1 in
      rw
        (
          eval_check-returns equal (ident name) ran.0 (drive invoke tail ran.1) e
              (n name name ∙ eq_refl name) silent.0 silent.1,
          eval_checks-reported equal (ident name) ran.0 (drive invoke tail ran.1)
              (read_checks ident es ++ checks) elsewhere,
          verdict-reads ident n es d.1 calls checks clear ran.1,
        )
        (and_assoc (reads_as equal e ran.0) (reads_agree equal invoke reader es ran.1).0
          (verdict calls checks (reads_agree equal invoke reader es ran.1).1))

  verdict-rejected :
      (k : CallId) (exception : Option String) (checks : List (Check E)) (calls : List ApiCall)
      → id_eq k k ≡ true
      → IsClear k calls
      → Elsewhere k checks
      → (o : Option (Outcome V)) (m : Running M)
      → eval_checks equal (reported k o (drive invoke calls m)) (rejected k exception checks)
        ≡ (raises_as exception o && verdict calls checks m)
  unfolding eval_checks
  verdict-rejected k none checks calls same clear elsewhere o m =
      eval_checks-reported equal k o (drive invoke calls m) checks elsewhere
  verdict-rejected k (some n) checks calls same clear elsewhere o m =
      let silent = results-drive k invoke calls m clear in
      rw
        (
          eval_check-raises equal k o (drive invoke calls m) n same silent.0 silent.1,
          eval_checks-reported equal k o (drive invoke calls m) checks elsewhere,
        )
        refl

  -- The checks of a plan on what the driver reports of its calls
  pub verdict-rounds :
      (i : ℕ) (rs : List (Round E)) (final : Dict E)
      → All (λ r. IsDict r.expected) rs
      → IsDict final
      → (m : Running M)
      → verdict (round_calls reader i rs final) (round_checks i rs final) m
        ≡ rounds_agree equal invoke reader rs final m
  unfolding drive eval_checks round_calls round_checks rounds_agree
  verdict-rounds i [] final h d m =
      ap (λ calls. verdict calls (read_checks final_id final) m)
        (sym (append-nil (read_calls reader final_id final)))
      ∙ ap (λ checks. verdict (read_calls reader final_id final ++ []) checks m)
          (sym (append-nil (read_checks final_id final)))
      ∙ verdict-reads final_id (λ a b. refl) final d [] [] (λ name. (tt, tt)) m
      ∙ and_true (reads_agree equal invoke reader final m).0
  verdict-rounds i (r ∷ rs) final h d m =
      let ran = call invoke r.target r.args r.kwargs m in
      let own = read_calls reader (read_id i) r.expected in
      let own_checks = read_checks (read_id i) r.expected in
      let later = later-IsClear reader (suc i) (op_id i) rs final (ground arith) in
      let clear =
        All-append (λ c. id_eq c.id (op_id i) ≡ false) own (round_calls reader (suc i) rs final)
          (read_calls-All (λ k. id_eq k (op_id i) ≡ false) reader (read_id i) r.expected
            (λ name. refl)).0
          later.0 in
      let elsewhere =
        All-append (λ c. id_eq (op_id i) (check_id c) ≡ false) own_checks
          (round_checks (suc i) rs final)
          (read_calls-All (λ k. id_eq (op_id i) k ≡ false) reader (read_id i) r.expected
            (λ name. refl)).1
          later.1 in
      rw
        (
          verdict-rejected (op_id i) r.exception (own_checks ++ round_checks (suc i) rs final)
              (own ++ round_calls reader (suc i) rs final) (ground arith) clear elsewhere ran.0
              ran.1,
          verdict-reads (read_id i) (λ a b. ground arith) r.expected h.0
              (round_calls reader (suc i) rs final) (round_checks (suc i) rs final)
              (λ name. later-IsClear reader (suc i) (read_id i name) rs final (ground arith)) ran.1,
          verdict-rounds (suc i) rs final h.1 d
              (reads_agree equal invoke reader r.expected ran.1).1,
        )
        (and_assoc (raises_as r.exception ran.0)
          (reads_agree equal invoke reader r.expected ran.1).0
          (rounds_agree equal invoke reader rs final
            (reads_agree equal invoke reader r.expected ran.1).1))
