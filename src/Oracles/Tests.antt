-- ===== src/Oracles/Tests.antt =====
-- The oracles on small machines.
use jaros_code.Prelude.{
  eq_refl, ◌&&◌, ◌↔◌, String, ◌≡◌, refl, Bool, true, false, Option, none, some, [], ◌∷◌, str_eq,
  if◌then◌else◌,
}
use jaros_code.Value.{Value, null, str, end, is_text}
use jaros_code.Dict.{lookup}
use jaros_code.Text.{◌<>◌}
use jaros_code.Oracles.Driver.{
  Outcome, returned, raised, Invoke, drive_import, all_new, drive, eval_checks, eval_check, results,
  raised_by,
}
use jaros_code.Oracles.Rounds.{round_calls, round_checks}
use jaros_code.Oracles.After.{after_prefix, after_prefix-append, getter_differs, class_differs}
use jaros_code.Oracles.Following.{
  Implements, Follows, done, accepted, refused, build_drive_plan-Follows,
  grade_state_machine-Implements, is_some,
}
use jaros_code.Oracles.Accepting.{conforms, grade_state_machine-conforms}
use jaros_code.Oracles.StateMachine.{
  transition, target_of, Op, Spec, grade_state_machine, validate_spec, walk, build_drive_plan,
}
use jaros_code.Oracles.Names.{from_state, is_ident}

abbrev an_op : String → Bool → Op
an_op action accept = record { action = action; args = []; kwargs = end; accept = accept }

abbrev order_spec : Spec
order_spec = record {
  states = "new" ∷ "paid" ∷ "shipped" ∷ [];
  initial = "new";
  transitions = ("new:pay", "paid") ∷ ("paid:ship", "shipped") ∷ [];
  drive = an_op "ship" false ∷ an_op "pay" true ∷ an_op "ship" true ∷ [];
  expect_final = "shipped";
  reject_exception = "ValueError";
  construct_args = [];
  construct_kwargs = end;
}

valid_spec : validate_spec order_spec ≡ true
unfolding validate_spec from_state
valid_spec = refl

-- A built module whose state is a text, and that moves by the table of a spec.
abbrev moved : Spec → String → Option String → Option (Outcome Value) × String
moved spec state none = (some (raised spec.reject_exception), state)
moved spec state (some next) = (some (returned null), next)

abbrev table_machine : Spec → Invoke Value String
table_machine spec target args kwargs state =
    if str_eq target "entity.__class__.state.fget"
    then (some (returned (str state)), state)
    else if str_eq target "Order"
    then (some (returned null), spec.initial)
    else moved spec state (lookup spec.transitions (state <> ":" <> after_prefix target))

-- The same, but its legal moves raise when they are done.
abbrev raising : Option (Outcome Value) × String → Option (Outcome Value) × String
raising (o, state) = (some (raised "RuntimeError"), state)

abbrev raising_machine : Invoke Value String
raising_machine target args kwargs state =
    if str_eq target "entity.pay"
    then raising (table_machine order_spec target args kwargs state)
    else table_machine order_spec target args kwargs state

accepts_table : grade_state_machine is_text (table_machine order_spec) "Order" order_spec "" ≡ true
unfolding grade_state_machine validate_spec from_state build_drive_plan walk drive_import all_new
    round_calls round_checks drive eval_checks eval_check results raised_by lookup
accepts_table = refl

accepts_raising : grade_state_machine is_text raising_machine "Order" order_spec "" ≡ true
unfolding grade_state_machine validate_spec from_state build_drive_plan walk drive_import all_new
    round_calls round_checks drive eval_checks eval_check results raised_by lookup
accepts_raising = refl

table_machine-moved :
    (spec : Spec) (op : Op) (state : String)
    → is_ident op.action ≡ true
    → table_machine spec (target_of op) op.args op.kwargs state
      ≡ moved spec state (transition spec state op.action)
table_machine-moved spec op state named =
    rw (getter_differs op.action named, class_differs op.action, after_prefix-append op.action) refl

table_machine-Implements :
    (spec : Spec) → Implements is_text (table_machine spec) spec (λ s m. m ≡ s)
table_machine-Implements spec = record {
  reads = λ s m at. (rw at (eq_refl s), (m, refl, at));
  moves =
      λ s next m op at named d. (next, rw (at, table_machine-moved spec op s named, d) refl, refl);
  refuses = λ s m op at named d. (
    rw (at, table_machine-moved spec op s named, d) (eq_refl spec.reject_exception),
    (m, rw (at, table_machine-moved spec op s named, d) refl, at),
  );
}

order-Follows : Follows order_spec "new" order_spec.drive "shipped"
unfolding lookup
order-Follows = refused refl refl (accepted refl refl (accepted refl refl done))

grade_state_machine-Implements_example :
    grade_state_machine is_text (table_machine order_spec) "Order" order_spec "" ≡ true
grade_state_machine-Implements_example =
    grade_state_machine-Implements is_text (table_machine order_spec) order_spec (λ s m. m ≡ s)
      (table_machine-Implements order_spec) "Order" "" "new" refl valid_spec order-Follows refl refl

build_drive_plan-Follows_example :
    (is_some (build_drive_plan "Order" order_spec) ≡ true)
    ↔ Follows order_spec "new" order_spec.drive "shipped"
build_drive_plan-Follows_example = build_drive_plan-Follows order_spec "Order"

grade_state_machine-conforms_example :
    grade_state_machine is_text (table_machine order_spec) "Order" order_spec "" ≡ (
      true
      && validate_spec order_spec
      && conforms is_text (table_machine order_spec) order_spec "new" order_spec.drive (some "new"))
grade_state_machine-conforms_example =
    grade_state_machine-conforms is_text (table_machine order_spec) order_spec "Order" ""
