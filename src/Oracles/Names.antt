-- ===== src/Oracles/Names.antt =====
-- The tests on names in `validate_spec` of harness/state_machine_oracle.py: `_IDENT_RE` and the
-- state of a transition's key.
use Prim.Native.Char.{Char, code}
use Prim.Native.String.{[], ◌∷◌}
use jaros_code.Prelude.{
  ℕ, String, Bool, true, false, ◌&&◌, ◌||◌, Option, none, some, leb, ◌==◌, if◌then◌else◌,
}
use jaros_code.Text.{is_empty}

-- `key.split(":", 1)[0]` of a key with a colon
abbrev pub after_char : Char → Bool → Option String → Option String
after_char c true rest = some ""
after_char c false none = none
after_char c false (some s) = some (c ∷ s)

unfoldable pub from_state : String → Option String
from_state [] = none
from_state (c ∷ s) = after_char c (code c == 58) (from_state s)

abbrev letter : ℕ → Bool
letter c = (leb 65 c && leb c 90) || (leb 97 c && leb c 122) || (c == 95)

-- The rest of an identifier; `$` matches before a last newline too.
abbrev pub ident_rest : String → Bool
ident_rest [] = true
ident_rest (c ∷ s) =
    let rest = ident_rest s in
    if code c == 10
    then is_empty s
    else (letter (code c) || (leb 48 (code c) && leb (code c) 57)) && rest

-- `_IDENT_RE.match`
abbrev pub is_ident : String → Bool
is_ident [] = false
is_ident (c ∷ s) = letter (code c) && ident_rest s
