-- ===== src/Oracles/Conserving.antt =====
-- The scripts of harness/conservation_oracle.py and harness/double_entry_oracle.py keep totals.
use mathlib.Core.Int.{ℤ, ◌+ℤ◌}
use jaros_code.Prelude.{
  String, Bool, true, false, not, ◌&&◌, some, List, [], ◌∷◌, ◌≡◌, refl, ap, sym, ◌∙◌, arith, inl,
  inr, Bool-cases, All, All-of,
}
use jaros_code.Dict.{Dict, IsDict}
use jaros_code.Oracles.Driver.{Invoke, call, drive_import}
use jaros_code.Oracles.Lists.{is_empty_list}
use jaros_code.Oracles.Rounds.{Round, rounds_agree, round_calls, round_checks}
use jaros_code.Oracles.Grading.{drive_import-rounds}
use jaros_code.Oracles.Following.{and_first, and_second}
use jaros_code.Oracles.Balances.{
  Step, Script, int_zero, amount, total, amounts, quantity_reader, agrees, shadow_after, walk,
  construct_call, plan_of, build_drive_plan, unique, driven,
}
use jaros_code.Oracles.Totals.{
  sum_of, sum_of-amounts, total-new_shadow, +ℤ_idr, agrees-total, amounts-IsDict,
}

module _ (script : Script) where
  abbrev qs : List String
  qs = script.quantities

  -- The changes of a step that shall be accepted sum to zero.
  abbrev pub Balanced : Step → Type 0
  Balanced s = (s.accept ≡ true) → total qs s.deltas ≡ int_zero

  total-shadow_after :
      (shadow : Dict ℤ) (step : Step) (accept : Bool)
      → ((accept ≡ true) → total qs step.deltas ≡ int_zero)
      → total qs (shadow_after qs shadow step accept) ≡ total qs shadow
  total-shadow_after shadow step false h = refl
  total-shadow_after shadow step true h =
      total-new_shadow qs shadow step.deltas
      ∙ ap (λ n. total qs shadow +ℤ n) (h refl)
      ∙ +ℤ_idr (total qs shadow)

  -- Every round expects amounts of the same total, and the script leaves that total.
  walk-total :
      (shadow : Dict ℤ) (steps : List Step)
      → All (λ s. Balanced s) steps
      → All (λ r. sum_of r.expected ≡ total qs shadow) (walk script shadow steps).0
        × (total qs (walk script shadow steps).1 ≡ total qs shadow)
  unfolding walk
  walk-total shadow [] h = (tt, refl)
  walk-total shadow (step ∷ steps) h =
      let next = shadow_after qs shadow step step.accept in
      let kept = total-shadow_after shadow step step.accept h.0 in
      let rest = walk-total next steps h.1 in
      (
        (
          sum_of-amounts qs next ∙ kept,
          All-of (λ r. sum_of r.expected ≡ total qs shadow) (λ r. sum_of r.expected ≡ total qs next)
              (λ r e. e ∙ kept) (walk script next steps).0 rest.0,
        ),
        rest.1 ∙ kept,
      )

  walk-IsDict :
      unique qs ≡ true
      → (shadow : Dict ℤ) (steps : List Step)
      → All (λ r. IsDict r.expected) (walk script shadow steps).0
  unfolding walk
  walk-IsDict u shadow [] = tt
  walk-IsDict u shadow (step ∷ steps) =
      let next = shadow_after qs shadow step step.accept in
      (amounts-IsDict qs next u, walk-IsDict u next steps)

  module _ {V M : Type 0} (equal : V → ℤ → Bool) (invoke : Invoke V M) (entity : String)
      (m : M) where
    abbrev pub run : Bool
    run =
        rounds_agree equal invoke quantity_reader (walk script script.initial script.steps).0
          (amounts qs script.expect_final)
          (call invoke entity script.construct_args script.construct_kwargs (some m)).1

    driven-rounds :
        (names : List String) (rounds : List (Round ℤ))
        → unique names ≡ true
        → not (is_empty_list names) ≡ true
        → All (λ r. IsDict r.expected) rounds
        → drive_import equal invoke
            (construct_call entity script
              ∷ round_calls quantity_reader 0 rounds (amounts names script.expect_final))
            (round_checks 0 rounds (amounts names script.expect_final))
            m
          ≡ rounds_agree equal invoke quantity_reader rounds
              (amounts names script.expect_final)
              (call invoke entity script.construct_args script.construct_kwargs (some m)).1
    driven-rounds [] rounds u n h = ground arith
    driven-rounds (q ∷ names) rounds u n h =
        drive_import-rounds quantity_reader equal invoke (construct_call entity script) refl rounds
          q (amount script.expect_final q) (amounts names script.expect_final) h
          (amounts-IsDict (q ∷ names) script.expect_final u) m

    driven-plan_of :
        (rounds : List (Round ℤ)) (shadow : Dict ℤ)
        → All (λ r. IsDict r.expected) rounds
        → unique qs ≡ true
        → not (is_empty_list qs) ≡ true
        → driven equal invoke m (plan_of entity script (rounds, shadow)) ≡ (
            agrees qs shadow script.expect_final
            && rounds_agree equal invoke quantity_reader rounds
                (amounts qs script.expect_final)
                (call invoke entity script.construct_args script.construct_kwargs (some m)).1)
    driven-plan_of rounds shadow h u n = elim (Bool-cases (agrees qs shadow script.expect_final)) [
      | inl same ↦ rw same (driven-rounds qs rounds u n h)
      | inr other ↦ rw other refl
    ]

    driven-run :
        unique qs ≡ true
        → not (is_empty_list qs) ≡ true
        → driven equal invoke m (build_drive_plan entity script)
          ≡ (agrees qs (walk script script.initial script.steps).1 script.expect_final && run)
    unfolding build_drive_plan
    driven-run u n =
        let plan = walk script script.initial script.steps in
        driven-plan_of plan.0 plan.1 (walk-IsDict u script.initial script.steps) u n

    -- A module that passes the plan of a script whose accepted steps are balanced
    pub driven-Conserves :
        unique qs ≡ true
        → not (is_empty_list qs) ≡ true
        → All (λ s. Balanced s) script.steps
        → driven equal invoke m (build_drive_plan entity script) ≡ true
        → (run ≡ true)
          × All
              (λ r. sum_of r.expected ≡ total qs script.initial)
              (walk script script.initial script.steps).0
          × (total qs script.expect_final ≡ total qs script.initial)
    driven-Conserves u n balanced h =
        let plan = walk script script.initial script.steps in
        let ran = sym (driven-run u n) ∙ h in
        let kept = walk-total script.initial script.steps balanced in
        (
          and_second _ _ ran,
          kept.0,
          sym (agrees-total qs plan.1 script.expect_final (and_first _ _ ran)) ∙ kept.1,
        )
