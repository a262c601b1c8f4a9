-- ===== src/Oracles/Conserved.antt =====
-- What `grade_conservation` of harness/conservation_oracle.py accepts.
use mathlib.Core.Int.{ℤ}
use jaros_code.Prelude.{
  String, Bool, true, false, Option, none, some, List, [], ◌∷◌, ◌≡◌, arith, map, All,
}
use jaros_code.Dict.{Dict}
use jaros_code.Oracles.Driver.{Invoke}
use jaros_code.Oracles.Lists.{all_of}
use jaros_code.Oracles.Following.{and_first, and_second}
use jaros_code.Oracles.Balances.{int_zero, total, walk}
use jaros_code.Oracles.Totals.{sum_of, int_eq→eq}
use jaros_code.Oracles.Conserving.{Balanced, run, driven-Conserves}
use jaros_code.Oracles.Conservation.{
  Op, Spec, deltas_of, step_of, script_of, conserves, validate_spec, grade_conservation,
}

conserves-total :
    (qs : List String) (accept : Bool) (deltas : Option (Dict ℤ))
    → conserves qs accept deltas ≡ true
    → accept ≡ true
    → total qs (deltas_of deltas) ≡ int_zero
conserves-total qs true none h a = ground arith
conserves-total qs true (some deltas) h a = int_eq→eq (total qs deltas) int_zero (and_second _ _ h)
conserves-total qs false deltas h a = ground arith

module _ (spec : Spec) where
  steps-Balanced :
      (ops : List Op)
      → all_of (λ op. conserves spec.quantities op.accept op.deltas) ops ≡ true
      → All (λ s. Balanced (script_of spec) s) (map step_of ops)
  steps-Balanced [] h = tt
  steps-Balanced (op ∷ ops) h = (
    conserves-total spec.quantities op.accept op.deltas (and_first _ _ h),
    steps-Balanced ops (and_second _ _ h),
  )

  -- Where grade_conservation accepts a built module, the amounts that were read after every op, of
  -- accepted and of rejected ones, are those of the spec, each rejected op raised the named
  -- exception, and the amounts after every op and the final ones have the initial amounts' total.
  pub grade_conservation-Conserves :
      {V M : Type 0} (equal : V → ℤ → Bool) (invoke : Invoke V M) (entity : String) (m : M)
      → grade_conservation equal invoke entity spec m ≡ true
      → (run (script_of spec) equal invoke entity m ≡ true)
        × All
            (λ r. sum_of r.expected ≡ total spec.quantities spec.initial)
            (walk (script_of spec) spec.initial (map step_of spec.drive)).0
        × (total spec.quantities spec.expect_final ≡ total spec.quantities spec.initial)
  unfolding grade_conservation validate_spec
  grade_conservation-Conserves equal invoke entity m h =
      let graded = and_second _ _ h in
      let valid = and_first _ _ graded in
      driven-Conserves (script_of spec) equal invoke entity m (and_first _ _ (and_second _ _ valid))
        (and_first _ _ (and_second _ _ (and_second _ _ valid)))
        (steps-Balanced spec.drive (and_first _ _ valid)) (and_second _ _ graded)
