-- ===== src/Oracles/Posting.antt =====
-- What `grade_double_entry` of harness/double_entry_oracle.py accepts.
use mathlib.Core.Path.{subst}
use mathlib.Core.Int.{ℤ, ◌+ℤ◌, +ℤ_assoc, +ℤ_comm}
use jaros_code.Prelude.{
  String, Bool, true, false, Option, none, some, List, [], ◌∷◌, ◌≡◌, refl, ap, sym, ◌∙◌, arith, map,
  All, str_eq, eq_iff, inl, inr, Bool-cases, if◌then◌else◌, OnSome,
}
use jaros_code.Dict.{Dict, assign, lookup, lookup-assign}
use jaros_code.Permissions.{one_of}
use jaros_code.Oracles.Driver.{Invoke}
use jaros_code.Oracles.Lists.{all_of}
use jaros_code.Oracles.Following.{and_first, and_second}
use jaros_code.Oracles.Balances.{int_zero, amount, total, walk, unique}
use jaros_code.Oracles.Totals.{sum_of, int_eq→eq, +ℤ_idr}
use jaros_code.Oracles.Conserving.{Balanced, run, driven-Conserves}
use jaros_code.Oracles.DoubleEntry.{
  Leg, Op, Spec, leg_signed_delta, add_delta, then_legs, legs_deltas, balanced, deltas_or_none,
  valid_op, step_of, script_of, validate_spec, grade_double_entry,
}

+ℤ-swap : (a b c : ℤ) → (a +ℤ b) +ℤ c ≡ (a +ℤ c) +ℤ b
+ℤ-swap a b c = +ℤ_assoc a b c ∙ ap (λ n. a +ℤ n) (+ℤ_comm b c) ∙ sym (+ℤ_assoc a c b)

-- Adding to an account adds to the sum of all.
sum_of-add_delta : (d : Dict ℤ) (k : String) (x : ℤ) → sum_of (add_delta d k x) ≡ sum_of d +ℤ x
unfolding assign lookup
sum_of-add_delta [] k x = +ℤ_idr (int_zero +ℤ x)
sum_of-add_delta ((j, a) ∷ d) k x = elim (Bool-cases (str_eq j k)) [
  | inl same ↦ rw same (+ℤ-swap a x (sum_of d))
  | inr other ↦ rw (other, sum_of-add_delta d k x) (sym (+ℤ_assoc a (sum_of d) x))
]

amount-add_delta :
    (d : Dict ℤ) (k q : String) (x : ℤ)
    → amount (add_delta d k x) q ≡ (if str_eq k q then amount d k +ℤ x else amount d q)
amount-add_delta d k q x = elim (Bool-cases (str_eq k q)) [
  | inl same ↦ rw (lookup-assign d k q (amount d k +ℤ x), same) refl
  | inr other ↦ rw (lookup-assign d k q (amount d k +ℤ x), other) refl
]

-- An account that is not listed leaves the total of those that are.
total-add_delta_other :
    (qs : List String) (d : Dict ℤ) (k : String) (x : ℤ)
    → one_of k qs ≡ false
    → total qs (add_delta d k x) ≡ total qs d
unfolding total
total-add_delta_other [] d k x h = refl
total-add_delta_other (q ∷ qs) d k x h =
    let other : str_eq k q ≡ false = ground (arith, h) in
    let later : one_of k qs ≡ false = ground (arith, h) in
    rw (amount-add_delta d k q x, other, total-add_delta_other qs d k x later) refl

total-add_delta :
    (qs : List String) (d : Dict ℤ) (k : String) (x : ℤ)
    → unique qs ≡ true
    → one_of k qs ≡ true
    → total qs (add_delta d k x) ≡ total qs d +ℤ x
unfolding total
total-add_delta [] d k x u h = ground (arith, h)
total-add_delta (q ∷ qs) d k x u h = elim (Bool-cases (str_eq k q)) [
  | inl same ↦
      let path = (eq_iff k q).0 same in
      let absent : one_of k qs ≡ false =
        subst (λ n. one_of n qs ≡ false) (sym path) (ground (arith, u)) in
      rw (amount-add_delta d k q x, same, total-add_delta_other qs d k x absent)
        (+ℤ-swap (amount d k) x (total qs d) ∙ ap (λ n. (amount d n +ℤ total qs d) +ℤ x) path)
  | inr other ↦
      let later : one_of k qs ≡ true = ground (arith, h, other) in
      rw (amount-add_delta d k q x, other, total-add_delta qs d k x (ground (arith, u)) later)
        (sym (+ℤ_assoc (amount d q) (total qs d) x))
]

total-nil : (qs : List String) → total qs [] ≡ int_zero
unfolding total lookup
total-nil [] = refl
total-nil (q ∷ qs) = rw (total-nil qs) refl

-- The total over the accounts is the sum of all changes.
abbrev IsTotalled : List String → Option (Dict ℤ) → Type 0
IsTotalled qs = OnSome (λ d. total qs d ≡ sum_of d)

module _ (qs : List String) (u : unique qs ≡ true) where
  then_legs-IsTotalled :
      (d : Dict ℤ) (k : String) (rest : Dict ℤ → Option (Dict ℤ))
      → ((e : Dict ℤ) → total qs e ≡ sum_of e → IsTotalled qs (rest e))
      → total qs d ≡ sum_of d
      → (delta : Option ℤ) → IsTotalled qs (then_legs d k rest delta (one_of k qs))
  then_legs-IsTotalled d k rest f h none = tt
  then_legs-IsTotalled d k rest f h (some x) = elim (Bool-cases (one_of k qs)) [
    | inl known ↦ rw known (
        f (add_delta d k x)
          (total-add_delta qs d k x u known ∙ ap (λ n. n +ℤ x) h ∙ sym (sum_of-add_delta d k x)))
    | inr unknown ↦ rw unknown tt
  ]

  legs_deltas-IsTotalled :
      (legs : List Leg) (d : Dict ℤ) → total qs d ≡ sum_of d → IsTotalled qs (legs_deltas qs legs d)
  unfolding legs_deltas
  legs_deltas-IsTotalled [] d h = h
  legs_deltas-IsTotalled (leg ∷ legs) d h =
      then_legs-IsTotalled d leg.account (legs_deltas qs legs)
        (λ e t. legs_deltas-IsTotalled legs e t) h (leg_signed_delta leg)

  balanced-total :
      (accept : Bool) (deltas : Option (Dict ℤ))
      → IsTotalled qs deltas
      → balanced accept deltas ≡ true
      → accept ≡ true
      → total qs (deltas_or_none deltas) ≡ int_zero
  balanced-total true none t h a = ground (arith, h)
  balanced-total true (some d) t h a = t ∙ int_eq→eq (sum_of d) int_zero h
  balanced-total false deltas t h a = ground (arith, a)

module _ (spec : Spec) where
  steps-Balanced :
      unique spec.accounts ≡ true
      → (ops : List Op) → all_of (valid_op spec.accounts) ops ≡ true
      → All (λ s. Balanced (script_of spec) s) (map (step_of spec) ops)
  steps-Balanced u [] h = tt
  steps-Balanced u (op ∷ ops) h =
      let qs = spec.accounts in
      (
        balanced-total qs u op.accept (legs_deltas qs op.legs [])
            (legs_deltas-IsTotalled qs u op.legs [] (total-nil qs))
            (and_first _ _ (and_first _ _ h)),
        steps-Balanced u ops (and_second _ _ h),
      )

  -- Where grade_double_entry accepts a built ledger, the balances that were read after every posting
  -- are those that the legs of the accepted ones make of the initial balances, each rejected posting
  -- raised the named exception, and the balances after every posting and the final ones have the
  -- initial balances' total: no cent is created or lost.
  pub grade_double_entry-Conserves :
      {V M : Type 0} (equal : V → ℤ → Bool) (invoke : Invoke V M) (entity : String) (m : M)
      → grade_double_entry equal invoke entity spec m ≡ true
      → (run (script_of spec) equal invoke entity m ≡ true)
        × All
            (λ r. sum_of r.expected ≡ total spec.accounts spec.initial)
            (walk (script_of spec) spec.initial (map (step_of spec) spec.drive)).0
        × (total spec.accounts spec.expect_final ≡ total spec.accounts spec.initial)
  unfolding grade_double_entry validate_spec
  grade_double_entry-Conserves equal invoke entity m h =
      let graded = and_second _ _ h in
      let valid = and_first _ _ graded in
      let u = and_first _ _ (and_second _ _ valid) in
      driven-Conserves (script_of spec) equal invoke entity m u
        (and_first _ _ (and_second _ _ (and_second _ _ valid)))
        (steps-Balanced u spec.drive (and_first _ _ valid)) (and_second _ _ graded)
