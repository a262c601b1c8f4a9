-- ===== src/Routing/Registry.antt =====
-- `ModelProfile` and `ModelRegistry` of harness/model_registry.py, for profiles whose id and alias
-- are texts. Reading them from files (`from_dir`) is left out.
use jaros_code.Prelude.{
  String, Bool, false, Option, none, some, List, [], ◌∷◌, map, any, if◌then◌else◌,
}
use jaros_code.Value.{Value, Fields, get, is_text}
use jaros_code.Dict.{Dict, lookup, assign}

pub record ModelProfile : Type 0 where
  pub id : String
  pub alias : String
  pub classes : List Fields
  pub adaptation : Value

pub record ModelRegistry : Type 0 where
  pub profiles : Dict ModelProfile
  pub default_id : String
  pub roster_order : List String

-- `{p.id: p for p in profiles}`
abbrev keyed_by_id : Dict ModelProfile → List ModelProfile → Dict ModelProfile
keyed_by_id d [] = d
keyed_by_id d (p ∷ ps) = keyed_by_id (assign d p.id p) ps

unfoldable pub new_registry : List ModelProfile → String → List String → ModelRegistry
new_registry profiles default_id roster_order = record {
  profiles = keyed_by_id [] profiles;
  default_id = default_id;
  roster_order = roster_order;
}

unfoldable pub lookup_by_id : ModelRegistry → String → Option ModelProfile
lookup_by_id registry model_id = lookup registry.profiles model_id

abbrev is_named : String → Option Value → Bool
is_named name none = false
is_named name (some v) = is_text v name

-- `class_name in profile.handled_class_names()`
abbrev handles : String → ModelProfile → Bool
handles name p = any (λ c. is_named name (get c "name")) p.classes

abbrev pub all_profiles : ModelRegistry → List ModelProfile
all_profiles registry = map (λ entry. entry.1) registry.profiles

abbrev ids_handling : String → List ModelProfile → List String
ids_handling name [] = []
ids_handling name (p ∷ ps) =
    let rest = ids_handling name ps in if handles name p then p.id ∷ rest else rest

unfoldable pub lookup_by_class : ModelRegistry → String → List String
lookup_by_class registry name = ids_handling name (all_profiles registry)

abbrev pub default_model : ModelRegistry → String
default_model registry = registry.default_id
