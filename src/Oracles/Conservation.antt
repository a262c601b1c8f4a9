-- ===== src/Oracles/Conservation.antt =====
-- harness/conservation_oracle.py: quantities whose total no op may change, the script of
-- its ops with their declared changes, and the verdict of `grade_conservation`. The numbers are ints. Of `validate_spec` the checks that the types leave are
-- kept. Diagnostics are left out.
use mathlib.Core.Int.{ℤ}
use jaros_code.Prelude.{String, Bool, true, false, not, ◌&&◌, Option, none, some, List, [], map}
use jaros_code.Text.{◌<>◌}
use jaros_code.Value.{Value, Fields}
use jaros_code.Dict.{Dict, keys}
use jaros_code.Permissions.{one_of}
use jaros_code.Oracles.Names.{is_ident}
use jaros_code.Oracles.Lists.{all_of, is_empty_list}
use jaros_code.Oracles.Driver.{Invoke}
use jaros_code.Oracles.Balances.{
  Script, Step, int_zero, int_eq, total, same_keys, unique, build_drive_plan, driven,
}

-- An op of the script; an op without "deltas" has none.
pub record Op : Type 0 where
  pub action : String
  pub args : List Value
  pub kwargs : Fields
  pub accept : Bool
  pub deltas : Option (Dict ℤ)

pub record Spec : Type 0 where
  pub quantities : List String
  pub initial : Dict ℤ
  pub drive : List Op
  pub expect_final : Dict ℤ
  pub reject_exception : String
  pub construct_args : List Value
  pub construct_kwargs : Fields

abbrev pub deltas_of : Option (Dict ℤ) → Dict ℤ
deltas_of none = []
deltas_of (some deltas) = deltas

abbrev pub step_of : Op → Step
step_of op = record {
  target = "entity." <> op.action;
  args = op.args;
  kwargs = op.kwargs;
  accept = op.accept;
  deltas = deltas_of op.deltas;
}

abbrev pub script_of : Spec → Script
script_of spec = record {
  quantities = spec.quantities;
  initial = spec.initial;
  steps = map step_of spec.drive;
  expect_final = spec.expect_final;
  reject_exception = spec.reject_exception;
  construct_args = spec.construct_args;
  construct_kwargs = spec.construct_kwargs;
}

abbrev pub conserves : List String → Bool → Option (Dict ℤ) → Bool
conserves qs true none = false
conserves qs true (some deltas) =
    not (is_empty_list deltas)
    && all_of (λ k. one_of k qs) (keys deltas)
    && int_eq (total qs deltas) int_zero
conserves qs false none = true
conserves qs false (some deltas) = false

unfoldable pub validate_spec : Spec → Bool
validate_spec spec =
    all_of (λ op. conserves spec.quantities op.accept op.deltas) spec.drive
    && (unique spec.quantities
        && (not (is_empty_list spec.quantities)
            && (all_of is_ident spec.quantities
                && (same_keys spec.quantities spec.initial
                    && (not (is_empty_list spec.drive)
                        && (all_of (λ op. is_ident op.action) spec.drive
                            && (same_keys spec.quantities spec.expect_final
                                && is_ident spec.reject_exception)))))))

-- Whether `grade_conservation` accepts the built module, which begins as `m`; `equal` is Python's
-- equality of a reported value and an int.
unfoldable pub grade_conservation :
    {V M : Type 0} → (V → ℤ → Bool) → Invoke V M → (entity : String) → Spec → M → Bool
grade_conservation equal invoke entity spec m =
    is_ident entity
    && (validate_spec spec && driven equal invoke m (build_drive_plan entity (script_of spec)))
