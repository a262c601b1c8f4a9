-- ===== src/Routing/Rewire.antt =====
-- `rewire` of harness/model_rewire.py: makes a registered model the served one. The served model, the
-- swap and the activation are parameters that act on the outside world and may raise; the client's
-- alias is the environment variable that `_point_client_at` sets.
use jaros_code.Prelude.{
  String, Bool, true, false, Option, none, some, List, [], str_eq, if◌then◌else◌,
}
use jaros_code.Text.{◌<>◌}
use jaros_code.Value.{Value}
use jaros_code.Exec.{Result, Error, ok, err, runtime_error, other_error}
use jaros_code.Routing.Registry.{ModelProfile, ModelRegistry, lookup_by_id}

pub record Serving (W : Type 0) : Type 0 where
  pub world : W
  pub client_alias : Option String

-- The callables of a rewire; `activate` gives the names of what it activated.
pub record Clerk (W : Type 0) : Type 0 where
  pub serving_state : W → Result (Option String) × W
  pub swap : String → W → Result (Unit {0}) × W
  pub activate : Value → String → W → Result (List String) × W

pub record Rewired : Type 0 where
  pub model_id : String
  pub swapped : Bool
  pub served_before : Option String
  pub served_after : Option String
  pub adaptation_active : List String
  pub error : Option String

-- `result["ok"]`: every failing path has an error, and no other.
abbrev pub is_ok : Rewired → Bool
is_ok r = elim r.error [ none ↦ true | some e ↦ false ]

abbrev pub message_of : Error → String
message_of (runtime_error m) = m
message_of (other_error m) = m

abbrev pub served_or_unknown : Result (Option String) → Option String
served_or_unknown (ok served) = served
served_or_unknown (err e) = none

abbrev pub is_serving : Option String → String → Bool
is_serving none alias = false
is_serving (some served) alias = str_eq served alias

abbrev unknown : String → Rewired
unknown model_id = record {
  model_id = model_id;
  swapped = false;
  served_before = none;
  served_after = none;
  adaptation_active = [];
  error = some ("Unknown model_id '" <> model_id <> "' — not found in registry");
}

abbrev swap_failed : String → Option String → Error → Rewired
swap_failed model_id before e = record {
  model_id = model_id;
  swapped = false;
  served_before = before;
  served_after = none;
  adaptation_active = [];
  error = some ("Swap failed: " <> message_of e);
}

abbrev pub activation : String → String → Bool → Option String → Result (List String) → Rewired
activation model_id alias swapped before (ok names) = record {
  model_id = model_id;
  swapped = swapped;
  served_before = before;
  served_after = some alias;
  adaptation_active = names;
  error = none;
}
activation model_id alias swapped before (err e) = record {
  model_id = model_id;
  swapped = swapped;
  served_before = before;
  served_after = some alias;
  adaptation_active = [];
  error = some ("Activation failed: " <> message_of e);
}

module _ {W : Type 0} (clerk : Clerk W) where
  -- From `_point_client_at` on.
  abbrev pub activated :
      String → ModelProfile → Bool → Option String → Serving W → Rewired × Serving W
  activated model_id p swapped before s =
      let ran = clerk.activate p.adaptation p.alias s.world in
      (
        activation model_id p.alias swapped before ran.0,
        record s { world = ran.1; client_alias = some p.alias },
      )

  abbrev pub after_swap :
      String → ModelProfile → Option String → Result (Unit {0}) → Serving W → Rewired × Serving W
  after_swap model_id p before (ok done) s = activated model_id p true before s
  after_swap model_id p before (err e) s = (swap_failed model_id before e, s)

  abbrev pub with_served : String → ModelProfile → Option String → Serving W → Rewired × Serving W
  with_served model_id p before s =
      let ran = clerk.swap model_id s.world in
      if is_serving before p.alias
      then activated model_id p false before s
      else after_swap model_id p before ran.0 (record s { world = ran.1 })

  abbrev pub with_profile : String → Option ModelProfile → Serving W → Rewired × Serving W
  with_profile model_id none s = (unknown model_id, s)
  with_profile model_id (some p) s =
      let state = clerk.serving_state s.world in
      with_served model_id p (served_or_unknown state.0) (record s { world = state.1 })

  unfoldable pub rewire : String → ModelRegistry → Serving W → Rewired × Serving W
  rewire model_id registry s = with_profile model_id (lookup_by_id registry model_id) s
