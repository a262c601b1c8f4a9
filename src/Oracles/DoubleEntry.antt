-- ===== src/Oracles/DoubleEntry.antt =====
-- harness/double_entry_oracle.py: journal entries as legs that are debits or credits of accounts, in
-- whole cents, the script of their postings, and the verdict of `grade_double_entry`. Of
-- `validate_spec` the checks that the types leave are kept. Diagnostics are left out.
use mathlib.Core.Nat
use mathlib.Core.Int.{ℤ, pos, negsuc, ◌+ℤ◌, neg_ℤ}
use jaros_code.Prelude.{
  ℕ, suc, String, Bool, true, false, not, ◌&&◌, Option, none, some, List, [], ◌∷◌, map, leb, length,
  if◌then◌else◌,
}
use jaros_code.Text.{◌<>◌}
use jaros_code.Value.{Value, num, str, array, object, Items, nil, cons, Fields, entry, end}
use jaros_code.Dict.{Dict, assign}
use jaros_code.Permissions.{one_of}
use jaros_code.Oracles.Lists.{all_of, is_empty_list}
use jaros_code.Oracles.Names.{is_ident}
use jaros_code.Oracles.Driver.{Invoke}
use jaros_code.Oracles.Balances.{
  Step, Script, int_zero, int_eq, amount, same_keys, unique, build_drive_plan, driven,
}
use jaros_code.Oracles.Totals.{sum_of}

-- A leg; a side that the dict does not have is none.
pub record Leg : Type 0 where
  pub account : String
  pub debit : Option ℤ
  pub credit : Option ℤ

pub record Op : Type 0 where
  pub legs : List Leg
  pub args : List Value
  pub kwargs : Fields
  pub accept : Bool

pub record Spec : Type 0 where
  pub accounts : List String
  pub initial : Dict ℤ
  pub post_method : String
  pub drive : List Op
  pub expect_final : Dict ℤ
  pub reject_exception : String
  pub construct_args : List Value
  pub construct_kwargs : Fields

-- The legs as the argument of a call
abbrev natural : Nat.ℕ → ℕ
natural Nat.zero = 0
natural (Nat.suc n) = suc (natural n)

abbrev int_value : ℤ → Value
int_value (pos n) = num false (natural n) 0
int_value (negsuc n) = num true (suc (natural n)) 0

abbrev side_fields : String → Option ℤ → Fields → Fields
side_fields side none fields = fields
side_fields side (some n) fields = entry side (int_value n) fields

abbrev leg_value : Leg → Value
leg_value leg =
    let sides = side_fields "debit" leg.debit (side_fields "credit" leg.credit end) in
    object (entry "account" (str leg.account) sides)

abbrev legs_items : List Leg → Items
legs_items [] = nil
legs_items (leg ∷ legs) = cons (leg_value leg) (legs_items legs)

-- Exactly one side, of a positive amount; a credit counts as negative.
abbrev positive : ℤ → Bool
positive (pos Nat.zero) = false
positive (pos (Nat.suc n)) = true
positive (negsuc n) = false

abbrev signed : Option ℤ → Option ℤ → Option ℤ
signed (some n) none = if positive n then some n else none
signed none (some n) = if positive n then some (neg_ℤ n) else none
signed (some n) (some m) = none
signed none none = none

abbrev pub leg_signed_delta : Leg → Option ℤ
leg_signed_delta leg = if is_ident leg.account then signed leg.debit leg.credit else none

-- `deltas[account] = deltas.get(account, 0) + delta`
abbrev pub add_delta : Dict ℤ → String → ℤ → Dict ℤ
add_delta deltas account delta = assign deltas account (amount deltas account +ℤ delta)

abbrev pub then_legs :
    Dict ℤ → String → (Dict ℤ → Option (Dict ℤ)) → Option ℤ → Bool → Option (Dict ℤ)
then_legs deltas account rest none known = none
then_legs deltas account rest (some delta) false = none
then_legs deltas account rest (some delta) true = rest (add_delta deltas account delta)

-- The signed changes of an entry; none where a leg is malformed or its account unknown.
unfoldable pub legs_deltas : List String → List Leg → Dict ℤ → Option (Dict ℤ)
legs_deltas accounts [] deltas = some deltas
legs_deltas accounts (leg ∷ legs) deltas =
    then_legs deltas leg.account (legs_deltas accounts legs) (leg_signed_delta leg)
      (one_of leg.account accounts)

abbrev pub balanced : Bool → Option (Dict ℤ) → Bool
balanced accept none = false
balanced true (some deltas) = int_eq (sum_of deltas) int_zero
balanced false (some deltas) = not (int_eq (sum_of deltas) int_zero)

abbrev pub valid_op : List String → Op → Bool
valid_op accounts op =
    balanced op.accept (legs_deltas accounts op.legs []) && leb 2 (length op.legs)

unfoldable pub validate_spec : Spec → Bool
validate_spec spec =
    all_of (valid_op spec.accounts) spec.drive
    && (unique spec.accounts
        && (not (is_empty_list spec.accounts)
            && (all_of is_ident spec.accounts
                && (same_keys spec.accounts spec.initial
                    && (is_ident spec.post_method
                        && (not (is_empty_list spec.drive)
                            && (same_keys spec.accounts spec.expect_final
                                && is_ident spec.reject_exception)))))))

abbrev pub deltas_or_none : Option (Dict ℤ) → Dict ℤ
deltas_or_none none = []
deltas_or_none (some deltas) = deltas

abbrev pub step_of : Spec → Op → Step
step_of spec op = record {
  target = "entity." <> spec.post_method;
  args = array (legs_items op.legs) ∷ op.args;
  kwargs = op.kwargs;
  accept = op.accept;
  deltas = deltas_or_none (legs_deltas spec.accounts op.legs []);
}

abbrev pub script_of : Spec → Script
script_of spec = record {
  quantities = spec.accounts;
  initial = spec.initial;
  steps = map (step_of spec) spec.drive;
  expect_final = spec.expect_final;
  reject_exception = spec.reject_exception;
  construct_args = spec.construct_args;
  construct_kwargs = spec.construct_kwargs;
}

-- Whether `grade_double_entry` accepts the built module, which begins as `m`.
unfoldable pub grade_double_entry :
    {V M : Type 0} → (V → ℤ → Bool) → Invoke V M → (entity : String) → Spec → M → Bool
grade_double_entry equal invoke entity spec m =
    is_ident entity
    && (validate_spec spec && driven equal invoke m (build_drive_plan entity (script_of spec)))
