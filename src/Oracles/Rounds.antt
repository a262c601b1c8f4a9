-- ===== src/Oracles/Rounds.antt =====
-- The rounds that `_build_drive_plan` of harness/state_machine_oracle.py and of
-- harness/conservation_oracle.py both append for an op: the call of its action, a read of each
-- quantity (or of the state), and the checks on them.
use jaros_code.Prelude.{
  ℕ, suc, String, Bool, true, false, ◌&&◌, Option, none, some, List, [], ◌∷◌, ◌++◌, str_eq,
}
use jaros_code.Value.{Value, Fields, end}
use jaros_code.Dict.{Dict}
use jaros_code.Oracles.Driver.{
  CallId, op_id, read_id, final_id, ApiCall, Outcome, returned, raised, Running, Invoke, call,
  Check, returns_equals, raises,
}

-- The call of an action, the exception that it shall raise where it is to be rejected, and the
-- values that are expected afterwards.
pub record Round (E : Type 0) : Type 0 where
  pub target : String
  pub args : List Value
  pub kwargs : Fields
  pub exception : Option String
  pub expected : Dict E

-- How a value is read: the target and the arguments of the call for a name.
pub record Reader : Type 0 where
  pub read_target : String → String
  pub read_args : List Value

module _ (reader : Reader) where
  abbrev pub read_call : CallId → String → ApiCall
  read_call k name = record {
    id = k;
    target = reader.read_target name;
    args = reader.read_args;
    kwargs = end;
  }

  module _ {E : Type 0} where
    abbrev pub read_calls : (String → CallId) → Dict E → List ApiCall
    read_calls ident [] = []
    read_calls ident ((name, e) ∷ es) = read_call (ident name) name ∷ read_calls ident es

    abbrev pub op_call : ℕ → Round E → ApiCall
    op_call i r = record { id = op_id i; target = r.target; args = r.args; kwargs = r.kwargs }

    unfoldable pub round_calls : ℕ → List (Round E) → Dict E → List ApiCall
    round_calls i [] final = read_calls final_id final
    round_calls i (r ∷ rs) final =
        op_call i r ∷ (read_calls (read_id i) r.expected ++ round_calls (suc i) rs final)

module _ {E : Type 0} where
  abbrev pub read_checks : (String → CallId) → Dict E → List (Check E)
  read_checks ident [] = []
  read_checks ident ((name, e) ∷ es) = returns_equals (ident name) e ∷ read_checks ident es

  abbrev pub rejected : CallId → Option String → List (Check E) → List (Check E)
  rejected k none checks = checks
  rejected k (some exception) checks = raises k exception ∷ checks

  unfoldable pub round_checks : ℕ → List (Round E) → Dict E → List (Check E)
  round_checks i [] final = read_checks final_id final
  round_checks i (r ∷ rs) final =
      rejected (op_id i) r.exception
        (read_checks (read_id i) r.expected ++ round_checks (suc i) rs final)

abbrev pub reads_as : {V E : Type 0} → (V → E → Bool) → E → Option (Outcome V) → Bool
reads_as equal e none = false
reads_as equal e (some (returned v)) = equal v e
reads_as equal e (some (raised exception)) = false

abbrev pub raises_as : {V : Type 0} → Option String → Option (Outcome V) → Bool
raises_as none o = true
raises_as (some exception) none = false
raises_as (some exception) (some (returned v)) = false
raises_as (some exception) (some (raised e)) = str_eq e exception

-- The same script without a driver: each round on the module itself, one after the other.
module _ {V E M : Type 0} (equal : V → E → Bool) (invoke : Invoke V M) (reader : Reader) where
  unfoldable pub reads_agree : Dict E → Running M → Bool × Running M
  reads_agree [] m = (true, m)
  reads_agree ((name, e) ∷ es) m =
      let ran = call invoke (reader.read_target name) reader.read_args end m in
      let rest = reads_agree es ran.1 in (reads_as equal e ran.0 && rest.0, rest.1)

  unfoldable pub rounds_agree : List (Round E) → Dict E → Running M → Bool
  rounds_agree [] final m = (reads_agree final m).0
  rounds_agree (r ∷ rs) final m =
      let ran = call invoke r.target r.args r.kwargs m in
      let read = reads_agree r.expected ran.1 in
      raises_as r.exception ran.0 && read.0 && rounds_agree rs final read.1
