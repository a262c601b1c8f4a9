-- ===== src/Oracles/LedgerTests.antt =====
-- The oracles on a store and on a ledger.
use jaros_code.Prelude.{
  ◌≡◌, refl, Bool, true, false, Option, none, some, [], ◌∷◌, str_eq, if◌then◌else◌,
}
use jaros_code.Value.{Value, null, num, array, object, nil, cons, entry, end}
use jaros_code.Dict.{lookup, assign}
use jaros_code.Oracles.Driver.{
  Outcome, returned, raised, Invoke, drive_import, all_new, drive, eval_checks, eval_check, results,
  raised_by,
}
use jaros_code.Oracles.Rounds.{round_calls, round_checks}
use mathlib.Core.Int.{ℤ, pos, negsuc}
use jaros_code.Prelude.{All, List, map, ◌==◌}
use jaros_code.Oracles.Conservation
use jaros_code.Oracles.Conservation.{grade_conservation, script_of, step_of}
use jaros_code.Oracles.Balances
use jaros_code.Oracles.Balances.{int_eq, total, new_shadow}
use jaros_code.Oracles.Totals.{sum_of}
use jaros_code.Oracles.Conserving.{run}
use jaros_code.Oracles.Conserved.{grade_conservation-Conserves}
use jaros_code.Oracles.DoubleEntry
use jaros_code.Oracles.DoubleEntry.{legs_deltas, grade_double_entry}
use jaros_code.Oracles.Posting.{grade_double_entry-Conserves}

-- A store of one unit.
abbrev store_spec : Conservation.Spec
store_spec = record {
  quantities = "stock" ∷ "sold" ∷ [];
  initial = ("stock", pos 1) ∷ ("sold", pos 0) ∷ [];
  drive =
      record {
        action = "sell";
        args = [];
        kwargs = end;
        accept = true;
        deltas = some (("stock", negsuc 0) ∷ ("sold", pos 1) ∷ []);
      }
      ∷ record { action = "sell"; args = []; kwargs = end; accept = false; deltas = none }
      ∷ [];
  expect_final = ("sold", pos 1) ∷ ("stock", pos 0) ∷ [];
  reject_exception = "ValueError";
  construct_args = [];
  construct_kwargs = end;
}

abbrev sell : Bool → Option (Outcome ℤ) × Bool
sell true = (some (raised "ValueError"), true)
sell false = (some (returned (pos 0)), true)

abbrev count : Bool → Bool → ℤ
count true true = pos 0
count true false = pos 1
count false true = pos 1
count false false = pos 0

-- Its state is whether the unit is sold.
abbrev store : Invoke ℤ Bool
store target args kwargs is_sold =
    if str_eq target "entity.sell"
    then sell is_sold
    else (some (returned (count (str_eq target "entity.stock") is_sold)), is_sold)

accepts_store : grade_conservation int_eq store "Store" store_spec false ≡ true
unfolding grade_conservation Conservation.validate_spec Balances.build_drive_plan Balances.walk
    new_shadow total drive_import all_new round_calls round_checks drive eval_checks eval_check
    results raised_by lookup
accepts_store = refl

grade_conservation-Conserves_example :
    (run (script_of store_spec) int_eq store "Store" false ≡ true)
    × All
        (λ r. sum_of r.expected ≡ total ("stock" ∷ "sold" ∷ []) store_spec.initial)
        (Balances.walk (script_of store_spec) store_spec.initial (map step_of store_spec.drive)).0
    × (total ("stock" ∷ "sold" ∷ []) store_spec.expect_final
        ≡ total ("stock" ∷ "sold" ∷ []) store_spec.initial)
grade_conservation-Conserves_example =
    grade_conservation-Conserves store_spec int_eq store "Store" false accepts_store

-- A ledger of two accounts.
abbrev pay_five : Bool → DoubleEntry.Op
pay_five accept = record {
  legs =
      record { account = "cash"; debit = some (pos 5); credit = none }
      ∷ record {
        account = "revenue";
        debit = none;
        credit = some (if accept then pos 5 else pos 4);
      }
      ∷ [];
  args = [];
  kwargs = end;
  accept = accept;
}

abbrev ledger_spec : DoubleEntry.Spec
ledger_spec = record {
  accounts = "cash" ∷ "revenue" ∷ [];
  initial = ("cash", pos 0) ∷ ("revenue", pos 0) ∷ [];
  post_method = "post";
  drive = pay_five false ∷ pay_five true ∷ [];
  expect_final = ("cash", pos 5) ∷ ("revenue", negsuc 4) ∷ [];
  reject_exception = "ValueError";
  construct_args = [];
  construct_kwargs = end;
}

abbrev credits_five : Value → Bool
credits_five
      (array (cons debit (cons (object (entry a account (entry side (num n amount s) end))) nil))) =
    amount == 5
credits_five _ = false

abbrev first_arg : List Value → Value
first_arg [] = null
first_arg (v ∷ vs) = v

abbrev post : Value → Bool → Option (Outcome ℤ) × Bool
post legs paid =
    if credits_five legs
    then (some (returned (pos 0)), true)
    else (some (raised "ValueError"), paid)

abbrev balance : Bool → Bool → ℤ
balance cash false = pos 0
balance true true = pos 5
balance false true = negsuc 4

-- Its state is whether the five are paid.
abbrev ledger : Invoke ℤ Bool
ledger target args kwargs paid =
    if str_eq target "entity.post"
    then post (first_arg args) paid
    else (some (returned (balance (str_eq target "entity.cash") paid)), paid)

accepts_ledger : grade_double_entry int_eq ledger "Ledger" ledger_spec false ≡ true
unfolding grade_double_entry DoubleEntry.validate_spec legs_deltas Balances.build_drive_plan
    Balances.walk new_shadow total drive_import all_new round_calls round_checks drive eval_checks
    eval_check results raised_by lookup assign
accepts_ledger = refl

grade_double_entry-Conserves_example :
    (run (DoubleEntry.script_of ledger_spec) int_eq ledger "Ledger" false ≡ true)
    × All
        (λ r. sum_of r.expected ≡ total ("cash" ∷ "revenue" ∷ []) ledger_spec.initial)
        (Balances.walk
          (DoubleEntry.script_of ledger_spec)
          ledger_spec.initial
          (map (DoubleEntry.step_of ledger_spec) ledger_spec.drive)).0
    × (total ("cash" ∷ "revenue" ∷ []) ledger_spec.expect_final
        ≡ total ("cash" ∷ "revenue" ∷ []) ledger_spec.initial)
grade_double_entry-Conserves_example =
    grade_double_entry-Conserves ledger_spec int_eq ledger "Ledger" false accepts_ledger
