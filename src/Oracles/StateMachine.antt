-- ===== src/Oracles/StateMachine.antt =====
-- harness/state_machine_oracle.py: the declared state machine, the plan that `_build_drive_plan`
-- makes of its script, and the verdict of `grade_state_machine`. Of `validate_spec` the checks that
-- the types leave are kept. Diagnostics are left out.
use jaros_code.Oracles.Names.{from_state, is_ident}
use jaros_code.Oracles.Lists.{all_of, is_empty_list}
use jaros_code.Prelude.{
  String, Bool, true, false, not, ◌&&◌, Option, none, some, List, [], ◌∷◌, str_eq, if◌then◌else◌,
}
use jaros_code.Text.{◌<>◌, is_empty}
use jaros_code.Value.{Value, str, object, Fields, entry, end}
use jaros_code.Dict.{Dict, lookup}
use jaros_code.Permissions.{one_of}
use jaros_code.Oracles.Driver.{ApiCall, entity_id, Invoke, Check, drive_import}
use jaros_code.Oracles.Rounds.{Round, Reader, round_calls, round_checks}

-- An op of the script; its "expect" is "accept" or "reject".
pub record Op : Type 0 where
  pub action : String
  pub args : List Value
  pub kwargs : Fields
  pub accept : Bool

pub record Spec : Type 0 where
  pub states : List String
  pub initial : String
  pub transitions : Dict String
  pub drive : List Op
  pub expect_final : String
  pub reject_exception : String
  pub construct_args : List Value
  pub construct_kwargs : Fields

-- `transitions` at the key of a state and an action
abbrev pub transition : Spec → String → String → Option String
transition spec state action = lookup spec.transitions (state <> ":" <> action)

-- `_STATE_PROPERTY_TARGET` and its argument
abbrev pub state_reader : Reader
state_reader = record {
  read_target = λ name. "entity.__class__.state.fget";
  read_args = object (entry "__jaros_ref__" (str "entity") end) ∷ [];
}

abbrev pub expecting : String → Dict String
expecting state = ("state", state) ∷ []

abbrev pub target_of : Op → String
target_of op = "entity." <> op.action

abbrev pub round_at : Op → Option String → String → Round String
round_at op exception state = record {
  target = target_of op;
  args = op.args;
  kwargs = op.kwargs;
  exception = exception;
  expected = expecting state;
}

-- The round of an op in a state, and the state after it; none where the op disagrees with the
-- transitions.
abbrev pub round_of : Spec → String → Op → Option String → Bool → Option (Round String × String)
round_of spec shadow op none true = none
round_of spec shadow op (some next) true = some (round_at op none next, next)
round_of spec shadow op none false = some (round_at op (some spec.reject_exception) shadow, shadow)
round_of spec shadow op (some next) false = none

abbrev pub cons_round : {E : Type 0} → Round E → Option (List (Round E)) → Option (List (Round E))
cons_round r none = none
cons_round r (some rs) = some (r ∷ rs)

abbrev pub then_rounds :
    (String → Option (List (Round String)))
    → Option (Round String × String)
    → Option (List (Round String))
then_rounds later none = none
then_rounds later (some (r, next)) = cons_round r (later next)

-- The loop over the script from a state on, and the comparison of the last state.
unfoldable pub walk : Spec → String → List Op → Option (List (Round String))
walk spec shadow [] = if str_eq shadow spec.expect_final then some [] else none
walk spec shadow (op ∷ ops) =
    then_rounds (λ next. walk spec next ops)
      (round_of spec shadow op (transition spec shadow op.action) op.accept)

abbrev pub construct_call : String → Spec → ApiCall
construct_call entity spec = record {
  id = entity_id;
  target = entity;
  args = spec.construct_args;
  kwargs = spec.construct_kwargs;
}

abbrev pub Plan : Type 0
Plan = List ApiCall × List (Check String)

abbrev pub plan_of : String → Spec → Option (List (Round String)) → Option Plan
plan_of entity spec none = none
plan_of entity spec (some rounds) = some (
  construct_call entity spec ∷ round_calls state_reader 0 rounds (expecting spec.expect_final),
  round_checks 0 rounds (expecting spec.expect_final),
)

unfoldable pub build_drive_plan : String → Spec → Option Plan
build_drive_plan entity spec = plan_of entity spec (walk spec spec.initial spec.drive)

abbrev pub declared_from : List String → Option String → Bool
declared_from states none = false
declared_from states (some state) = one_of state states

abbrev pub transitions_declared : List String → Dict String → Bool
transitions_declared states [] = true
transitions_declared states ((key, to_state) ∷ rest) =
    declared_from states (from_state key)
    && (one_of to_state states && transitions_declared states rest)

unfoldable pub validate_spec : Spec → Bool
validate_spec spec =
    not (is_empty_list spec.states)
    && all_of (λ s. not (is_empty s)) spec.states
    && one_of spec.initial spec.states
    && not (is_empty_list spec.transitions)
    && transitions_declared spec.states spec.transitions
    && not (is_empty_list spec.drive)
    && all_of (λ op. is_ident op.action) spec.drive
    && one_of spec.expect_final spec.states
    && is_ident spec.reject_exception

abbrev pub driven : {V M : Type 0} → (V → String → Bool) → Invoke V M → M → Option Plan → Bool
driven equal invoke m none = false
driven equal invoke m (some (calls, checks)) = drive_import equal invoke calls checks m

-- Whether `grade_state_machine` accepts the built module, which begins as `m`; `equal` is Python's
-- equality of a reported value and a text.
unfoldable pub grade_state_machine :
    {V M : Type 0} → (V → String → Bool) → Invoke V M → (entity : String) → Spec → M → Bool
grade_state_machine equal invoke entity spec m =
    is_ident entity && validate_spec spec && driven equal invoke m (build_drive_plan entity spec)
