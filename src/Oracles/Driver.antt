-- ===== src/Oracles/Driver.antt =====
-- harness/import_driver.py: the calls that the driver makes into a built module, what it reports of
-- each by a sentinel line, and the checks on the reports. The built module is a parameter; the text
-- of the sentinel lines, spies and the clock are left out.
use jaros_code.Prelude.{
  ℕ, String, Bool, true, false, not, ◌&&◌, Option, none, some, List, [], ◌∷◌, ◌==◌, str_eq,
}
use jaros_code.Value.{Value, Fields}

-- The ids of calls, `entity`, `op{i}`, `op{i}_{name}` and `final_{name}`, which are different texts.
pub data CallId : Type 0 where
  entity_id : CallId
  op_id : ℕ → CallId
  read_id : ℕ → String → CallId
  final_id : String → CallId

abbrev pub id_eq : CallId → CallId → Bool
id_eq entity_id entity_id = true
id_eq (op_id i) (op_id j) = i == j
id_eq (read_id i a) (read_id j b) = (i == j) && str_eq a b
id_eq (final_id a) (final_id b) = str_eq a b
id_eq _ _ = false

pub record ApiCall : Type 0 where
  pub id : CallId
  pub target : String
  pub args : List Value
  pub kwargs : Fields

-- What the driver reports of a call: the value or the name of the exception.
pub data Outcome (V : Type 0) : Type 0 where
  returned : V → Outcome V
  raised : String → Outcome V

abbrev pub Report : Type 0 → Type 0
Report V = CallId × Outcome V

-- The process that runs the built module, with what the module holds; `none` where it has ended.
abbrev pub Running : Type 0 → Type 0
Running M = Option M

-- The built module: what a call reports, none where the call ends the process, and what is left.
abbrev pub Invoke : Type 0 → Type 0 → Type 0
Invoke V M = String → List Value → Fields → M → Option (Outcome V) × M

abbrev pub reported : {V : Type 0} → CallId → Option (Outcome V) → List (Report V) → List (Report V)
reported k none rest = rest
reported k (some o) rest = (k, o) ∷ rest

module _ {V M : Type 0} (invoke : Invoke V M) where
  abbrev still : Option (Outcome V) × M → Option (Outcome V) × Running M
  still (none, m) = (none, none)
  still (some o, m) = (some o, some m)

  abbrev pub call :
      (target : String) → List Value → Fields → Running M → Option (Outcome V) × Running M
  call target args kwargs none = (none, none)
  call target args kwargs (some m) = still (invoke target args kwargs m)

  -- The driver's loop over the calls: the lines that it prints.
  unfoldable pub drive : List ApiCall → Running M → List (Report V)
  drive [] m = []
  drive (c ∷ cs) m =
      let ran = call c.target c.args c.kwargs m in reported c.id ran.0 (drive cs ran.1)

-- `results` and `raised` of `_parse_sentinels`: the last report of an id counts in each.
abbrev pub or_earlier {ℓ} : {A : Type ℓ} → Option A → Option A → Option A
or_earlier none earlier = earlier
or_earlier (some a) earlier = some a

abbrev value_if : {V : Type 0} → Bool → Outcome V → Option V
value_if true (returned v) = some v
value_if true (raised e) = none
value_if false o = none

abbrev raised_if : {V : Type 0} → Bool → Outcome V → Option String
raised_if true (returned v) = none
raised_if true (raised e) = some e
raised_if false o = none

unfoldable pub results : {V : Type 0} → List (Report V) → CallId → Option V
results [] k = none
results ((j, o) ∷ rs) k = or_earlier (results rs k) (value_if (id_eq j k) o)

unfoldable pub raised_by : {V : Type 0} → List (Report V) → CallId → Option String
raised_by [] k = none
raised_by ((j, o) ∷ rs) k = or_earlier (raised_by rs k) (raised_if (id_eq j k) o)

pub data Check (E : Type 0) : Type 0 where
  returns_equals : CallId → E → Check E
  raises : CallId → (exception : String) → Check E

abbrev pub check_id : {E : Type 0} → Check E → CallId
check_id (returns_equals k e) = k
check_id (raises k exception) = k

abbrev pub is_new : CallId → List ApiCall → Bool
is_new k [] = true
is_new k (c ∷ cs) = not (id_eq c.id k) && is_new k cs

-- The guard on duplicate ids
unfoldable pub all_new : List ApiCall → Bool
all_new [] = true
all_new (c ∷ cs) = is_new c.id cs && all_new cs

abbrev pub nonempty : {E : Type 0} → List (Check E) → Bool
nonempty [] = false
nonempty (c ∷ cs) = true

-- `equal` is Python's equality of what was reported and what is expected.
module _ {V E : Type 0} (equal : V → E → Bool) where
  abbrev returned_equal : E → Option String → Option V → Bool
  returned_equal e (some exception) v = false
  returned_equal e none none = false
  returned_equal e none (some v) = equal v e

  abbrev raised_named : String → Option V → Option String → Bool
  raised_named exception (some v) r = false
  raised_named exception none none = false
  raised_named exception none (some e) = str_eq e exception

  unfoldable pub eval_check : List (Report V) → Check E → Bool
  eval_check rs (returns_equals k e) = returned_equal e (raised_by rs k) (results rs k)
  eval_check rs (raises k exception) = raised_named exception (results rs k) (raised_by rs k)

  unfoldable pub eval_checks : List (Report V) → List (Check E) → Bool
  eval_checks rs [] = true
  eval_checks rs (c ∷ cs) = eval_check rs c && eval_checks rs cs

  -- Whether `drive_import` returns `ok`, the module having been imported within the time limit.
  unfoldable pub drive_import : {M : Type 0} → Invoke V M → List ApiCall → List (Check E) → M → Bool
  drive_import invoke calls checks m =
      all_new calls && nonempty checks && eval_checks (drive invoke calls (some m)) checks
