-- ===== src/Solving/Repair.antt =====
-- harness/repair_solve.py: a model writes code, a visible test judges it, and the model is asked
-- again with the failure, up to a bound. The model and the test act on a state.
use jaros_code.Prelude.{
  ℕ, zero, suc, ◌+◌, ◌≤◌, String, ◌≡◌, refl, ap, Bool, true, false, Option, none, some, List, [],
  ◌∷◌, ◌++◌, arith, length, All, ◌⊎◌, inl, inr,
}
use jaros_code.Text.{◌<>◌}

pub record Verdict : Type 0 where
  pub passed : Bool
  pub failure_text : Option String

pub record Repaired : Type 0 where
  pub solved : Bool
  pub code : String
  pub retries : ℕ
  pub attempts : List String

abbrev or_empty : Option String → String
or_empty none = ""
or_empty (some s) = s

abbrev pub repair_context : String → String → Verdict → String
repair_context context code verdict =
    context
    <> "\n\nYour previous attempt:\n"
    <> code
    <> "\nThe test FAILED with:\n"
    <> or_empty verdict.failure_text
    <> "\nFix it."

module _ {S : Type 0} (gen_fn : String → S → String × S) (test_fn : String → S → Verdict × S)
    (context : String) where
  -- An attempt in a context, its verdict, and the state after the test.
  abbrev pub attempt : String → S → String × (Verdict × S)
  attempt text s = let written = gen_fn text s in (written.0, test_fn written.0 written.1)

  abbrev pub with_code : String → Repaired → Repaired
  with_code code r = record r { attempts = code ∷ r.attempts }

  -- The attempt that passed ends the run; otherwise the rest is what the later ones leave.
  abbrev pub judged_as : Bool → String → ℕ → S → Repaired × S → Repaired × S
  judged_as true code retries after rest =
      (record { solved = true; code = code; retries = retries; attempts = code ∷ [] }, after)
  judged_as false code retries after rest = (with_code code rest.0, rest.1)

  -- The repairs that are left, after a number of them and an attempt that failed.
  unfoldable pub repair : (left retries : ℕ) → String → Verdict → S → Repaired × S
  repair zero retries code verdict s =
      (record { solved = false; code = code; retries = retries; attempts = [] }, s)
  repair (suc left) retries code verdict s =
      let next = attempt (repair_context context code verdict) s in
      judged_as next.1.0.passed next.0 (retries + 1) next.1.1
        (repair left (retries + 1) next.0 next.1.0 next.1.1)

  unfoldable pub repair_solve : (max_retries : ℕ) → S → Repaired × S
  repair_solve max_retries s =
      let first = attempt context s in
      judged_as first.1.0.passed first.0 0 first.1.1
        (repair max_retries 0 first.0 first.1.0 first.1.1)

  -- A code passes the test in some state of the run.
  abbrev pub Passes : String → Type 0
  Passes code = (s : S) × ((test_fn code s).0.passed ≡ true)

  abbrev pub Fails : String → Type 0
  Fails code = (s : S) × ((test_fn code s).0.passed ≡ false)

  -- The attempts all failed, but for the last one where the run is solved; the code is the last of
  -- them.
  pub record IsRepaired (tries : ℕ) (r : Repaired) : Type 0 where
    pub earlier : List String
    pub last : String
    pub attempts : r.attempts ≡ earlier ++ last ∷ []
    pub code : r.code ≡ last
    pub failed_before : All Fails earlier
    pub outcome :
        ((r.solved ≡ true) × Passes last × (length r.attempts ≤ tries))
        ⊎ ((r.solved ≡ false) × Fails last × (length r.attempts ≡ tries))

  cons-IsRepaired :
      (code : String) (tries : ℕ) (r : Repaired)
      → Fails code
      → IsRepaired tries r
      → IsRepaired (suc tries) (with_code code r)
  cons-IsRepaired code tries r f h = record {
    earlier = code ∷ h.earlier;
    last = h.last;
    attempts = ap (λ cs. code ∷ cs) h.attempts;
    code = h.code;
    failed_before = (f, h.failed_before);
    outcome = elim h.outcome [
      | inl (solved, passes, bound) ↦ inl (solved, passes, omega (arith, bound))
      | inr (unsolved, fails, all) ↦ inr (unsolved, fails, omega (arith, all))
    ];
  }

  -- What holds of a run that began with a number of retries.
  abbrev Counted : ℕ → ℕ → Repaired → Type 0
  Counted tries retries r = IsRepaired tries r × (r.retries + 1 ≡ retries + length r.attempts)

  judged_as-Counted :
      (passed : Bool) (code : String) (retries left : ℕ) (tested after : S) (rest : Repaired × S)
      → (test_fn code tested).0.passed ≡ passed
      → (Fails code → Counted (suc left) retries (with_code code rest.0))
      → Counted (suc left) retries (judged_as passed code retries after rest).0
  judged_as-Counted true code retries left tested after rest e h = (
    record {
      earlier = [];
      last = code;
      attempts = refl;
      code = refl;
      failed_before = tt;
      outcome = inl (refl, (tested, e), omega arith);
    },
    omega arith,
  )
  judged_as-Counted false code retries left tested after rest e h = h (tested, e)

  repair-Counted :
      (left retries : ℕ) (code : String) (verdict : Verdict) (s : S)
      → Fails code
      → Counted (suc left) retries (with_code code (repair left retries code verdict s).0)
  unfolding repair
  repair-Counted zero retries code verdict s f = (
    record {
      earlier = [];
      last = code;
      attempts = refl;
      code = refl;
      failed_before = tt;
      outcome = inr (refl, f, refl);
    },
    omega arith,
  )
  repair-Counted (suc left) retries code verdict s f =
      let written = gen_fn (repair_context context code verdict) s in
      let judged = test_fn written.0 written.1 in
      let rest =
        judged_as-Counted judged.0.passed written.0 (retries + 1) left written.1 judged.1
          (repair left (retries + 1) written.0 judged.0 judged.1) refl
          (λ failed. repair-Counted left (retries + 1) written.0 judged.0 judged.1 failed) in
      (cons-IsRepaired code (suc left) _ f rest.0, omega (arith, rest.1))

  -- repair_solve stops: after at most max_retries + 1 attempts, of which all but the last failed the
  -- test. If it reports the problem as solved, its code is the last attempt, which passed; if not,
  -- every attempt was used and failed. The retries are the attempts after the first.
  pub repair_solve-IsRepaired :
      (max_retries : ℕ) (s : S)
      → let r = (repair_solve max_retries s).0 in
        IsRepaired (suc max_retries) r × (r.retries + 1 ≡ length r.attempts)
  unfolding repair_solve
  repair_solve-IsRepaired max_retries s =
      let written = gen_fn context s in
      let judged = test_fn written.0 written.1 in
      let rest =
        judged_as-Counted judged.0.passed written.0 0 max_retries written.1 judged.1
          (repair max_retries 0 written.0 judged.0 judged.1) refl
          (λ failed. repair-Counted max_retries 0 written.0 judged.0 judged.1 failed) in
      (rest.0, omega (arith, rest.1))
