-- ===== src/Value.antt =====
-- JSON values as `json.loads` returns them and `json.dumps` takes them, with the `dict` and `list`
-- operations that the harness applies to them. `num negative digits scale` is the decimal number
-- whose absolute value is digits / 10 ^ scale. A dict keeps its entries in insertion order.
use jaros_code.Prelude.{
  ℕ, String, ◌≡◌, refl, Bool, true, false, not, Option, none, some, List, [], ◌∷◌, arith, ◌==◌,
  str_eq, eq_iff, if◌then◌else◌,
}
use jaros_code.Text.{is_empty}

mutual
  pub data Value : Type 0 where
    null : Value
    bool : Bool → Value
    num : (negative : Bool) (digits scale : ℕ) → Value
    str : String → Value
    array : Items → Value
    object : Fields → Value

  pub data Items : Type 0 where
    nil : Items
    cons : Value → Items → Items

  pub data Fields : Type 0 where
    end : Fields
    entry : String → Value → Fields → Fields

-- The elements of a list value.
unfoldable pub to_list : Items → List Value
to_list nil = []
to_list (cons v vs) = v ∷ to_list vs

-- `d.get(key)`, with `none` for a missing key.
unfoldable pub get : Fields → String → Option Value
get end k = none
get (entry j v fs) k = if str_eq j k then some v else get fs k

-- `d[key] = value`: an existing key keeps its place, a new one goes to the end.
unfoldable pub put : Fields → String → Value → Fields
put end k w = entry k w end
put (entry j v fs) k w = if str_eq j k then entry j w fs else entry j v (put fs k w)

-- `bool(value)`
unfoldable pub truthy : Value → Bool
truthy null = false
truthy (bool b) = b
truthy (num negative digits scale) = not (digits == 0)
truthy (str s) = not (is_empty s)
truthy (array nil) = false
truthy (array (cons v vs)) = true
truthy (object end) = false
truthy (object (entry k v fs)) = true

-- `bool(d.get(key))`
abbrev pub truthy_option : Option Value → Bool
truthy_option none = false
truthy_option (some v) = truthy v

-- `value == text`
abbrev pub is_text : Value → String → Bool
is_text (str s) t = str_eq s t
is_text _ t = false

-- `d.get(key) == text`
abbrev pub is_text_option : Option Value → String → Bool
is_text_option none t = false
is_text_option (some v) t = is_text v t

-- `value if isinstance(value, str) else None`
abbrev pub as_text : Value → Option String
as_text (str s) = some s
as_text _ = none

-- Reading a key after a write to a key.
pub get-put :
    (fs : Fields) (k j : String) (w : Value)
    → get (put fs k w) j ≡ (if str_eq k j then some w else get fs j)
unfolding get put
get-put end k j w = refl
get-put (entry i v fs) k j w = ground (arith, eq_iff i k, eq_iff i j, eq_iff k j, get-put fs k j w)
