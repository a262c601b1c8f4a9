-- ===== src/Oracles/Balances.antt =====
-- What harness/conservation_oracle.py and harness/double_entry_oracle.py share, line by line: a script
-- of calls with the changes that they declare to named amounts, the plan that `_build_drive_plan`
-- makes of it, and the test that amounts agree. The numbers are ints.
use mathlib.Core.Nat
use mathlib.Core.Int.{ℤ, pos, negsuc, ◌+ℤ◌}
use jaros_code.Prelude.{
  String, Bool, true, false, not, ◌&&◌, Option, none, some, List, [], ◌∷◌, map, if◌then◌else◌,
}
use jaros_code.Text.{◌<>◌}
use jaros_code.Value.{Value, Fields}
use jaros_code.Dict.{Dict, lookup, keys}
use jaros_code.Permissions.{one_of}
use jaros_code.Oracles.Lists.{all_of}
use jaros_code.Oracles.Driver.{ApiCall, entity_id, Invoke, Check, drive_import}
use jaros_code.Oracles.Rounds.{Round, Reader, round_calls, round_checks}

-- The call of an op, whether it shall be accepted, and the changes that it makes then.
pub record Step : Type 0 where
  pub target : String
  pub args : List Value
  pub kwargs : Fields
  pub accept : Bool
  pub deltas : Dict ℤ

pub record Script : Type 0 where
  pub quantities : List String
  pub initial : Dict ℤ
  pub steps : List Step
  pub expect_final : Dict ℤ
  pub reject_exception : String
  pub construct_args : List Value
  pub construct_kwargs : Fields

abbrev pub int_zero : ℤ
int_zero = pos 0

abbrev pub nat_eq : Nat.ℕ → Nat.ℕ → Bool
nat_eq Nat.zero Nat.zero = true
nat_eq Nat.zero (Nat.suc n) = false
nat_eq (Nat.suc m) Nat.zero = false
nat_eq (Nat.suc m) (Nat.suc n) = nat_eq m n

abbrev pub int_eq : ℤ → ℤ → Bool
int_eq (pos m) (pos n) = nat_eq m n
int_eq (pos m) (negsuc n) = false
int_eq (negsuc m) (pos n) = false
int_eq (negsuc m) (negsuc n) = nat_eq m n

-- `d.get(q, 0)`, and `d[q]` where the dict has the quantity.
abbrev value_or_zero : Option ℤ → ℤ
value_or_zero none = int_zero
value_or_zero (some n) = n

abbrev pub amount : Dict ℤ → String → ℤ
amount d q = value_or_zero (lookup d q)

-- `sum(deltas.get(q, 0) for q in quantities)`
unfoldable pub total : List String → Dict ℤ → ℤ
total [] d = int_zero
total (q ∷ qs) d = amount d q +ℤ total qs d

-- The zero-argument reader of a quantity
abbrev pub quantity_reader : Reader
quantity_reader = record { read_target = λ q. "entity." <> q; read_args = [] }

-- A dict's amounts, in the order of the quantities.
abbrev pub amounts : List String → Dict ℤ → Dict ℤ
amounts qs d = map (λ q. (q, amount d q)) qs

-- `{q: shadow[q] + deltas.get(q, 0) for q in quantities}`
unfoldable pub new_shadow : List String → Dict ℤ → Dict ℤ → Dict ℤ
new_shadow qs shadow deltas = map (λ q. (q, amount shadow q +ℤ amount deltas q)) qs

abbrev pub agrees : List String → Dict ℤ → Dict ℤ → Bool
agrees [] shadow final = true
agrees (q ∷ qs) shadow final = int_eq (amount shadow q) (amount final q) && agrees qs shadow final

abbrev pub shadow_after : List String → Dict ℤ → Step → Bool → Dict ℤ
shadow_after qs shadow step true = new_shadow qs shadow step.deltas
shadow_after qs shadow step false = shadow

abbrev pub exception_for : Script → Bool → Option String
exception_for script true = none
exception_for script false = some script.reject_exception

abbrev pub round_of : Script → Dict ℤ → Step → Round ℤ
round_of script shadow step = record {
  target = step.target;
  args = step.args;
  kwargs = step.kwargs;
  exception = exception_for script step.accept;
  expected = amounts script.quantities (shadow_after script.quantities shadow step step.accept);
}

-- The loop over the script: the rounds, and the amounts that the last step leaves.
unfoldable pub walk : Script → Dict ℤ → List Step → List (Round ℤ) × Dict ℤ
walk script shadow [] = ([], shadow)
walk script shadow (step ∷ steps) =
    let rest = walk script (shadow_after script.quantities shadow step step.accept) steps in
    (round_of script shadow step ∷ rest.0, rest.1)

abbrev pub construct_call : String → Script → ApiCall
construct_call entity script = record {
  id = entity_id;
  target = entity;
  args = script.construct_args;
  kwargs = script.construct_kwargs;
}

abbrev pub Plan : Type 0
Plan = List ApiCall × List (Check ℤ)

abbrev pub plan_of : String → Script → List (Round ℤ) × Dict ℤ → Option Plan
plan_of entity script (rounds, shadow) =
    if agrees script.quantities shadow script.expect_final
    then some (
      construct_call entity script
          ∷ round_calls quantity_reader 0 rounds (amounts script.quantities script.expect_final),
      round_checks 0 rounds (amounts script.quantities script.expect_final),
    )
    else none

unfoldable pub build_drive_plan : String → Script → Option Plan
build_drive_plan entity script = plan_of entity script (walk script script.initial script.steps)

abbrev pub same_keys : List String → Dict ℤ → Bool
same_keys qs d = all_of (λ q. one_of q (keys d)) qs && all_of (λ k. one_of k qs) (keys d)

abbrev pub unique : List String → Bool
unique [] = true
unique (q ∷ qs) = not (one_of q qs) && unique qs

abbrev pub driven : {V M : Type 0} → (V → ℤ → Bool) → Invoke V M → M → Option Plan → Bool
driven equal invoke m none = false
driven equal invoke m (some (calls, checks)) = drive_import equal invoke calls checks m
