-- ===== src/Rewind.antt =====
-- `/rewind` of harness/cli.py (`cmd_rewind`): restores edited files from the checkpoint ring, each
-- through a `code.write_file` decision. `int` and `isdigit` are modelled for ASCII digits. A reply
-- keeps what the text says, line by line, without its wording.
pub mod Consumes
pub mod Restores
mod Tests
use Prim.Native.Char.{Char, code}
use jaros_code.Prelude.{
  ℕ, zero, suc, ◌+◌, ◌-◌, ◌*◌, String, Bool, true, false, not, ◌&&◌, ◌||◌, Option, none, some, List,
  [], ◌∷◌, ◌++◌, ltb, leb, ◌==◌, length, if◌then◌else◌,
}
use jaros_code.Text.{◌<>◌, is_empty, strip}
use jaros_code.Value.{Value, str, object, end, entry}
use jaros_code.Exec.{Error, Exec, Result, ok, err}
use jaros_code.CheckpointRing.{
  CheckpointEntry, CheckpointRing, position_from_newest, last_n, drop_last_n,
}
use jaros_code.Runtime.Base.{Decision, Host, Config, State}
use jaros_code.Runtime.{apply}

-- What the argument of `/rewind` asks for.
pub data Target : Type 0 where
  blank : Target
  -- `int(a)`, where it is not negative
  steps : ℕ → Target
  -- a negative number
  backwards : Target
  -- several minus signs before digits: `int` raises `ValueError`
  no_number : Target
  checkpoint : String → Target

unfoldable pub all_digits : String → Bool
all_digits String.[] = true
all_digits (String.◌∷◌ c s) = leb 48 (code c) && leb (code c) 57 && all_digits s

-- `s.isdigit()`
abbrev is_digits : String → Bool
is_digits s = not (is_empty s) && all_digits s

unfoldable pub digits_value : ℕ → String → ℕ
digits_value n String.[] = n
digits_value n (String.◌∷◌ c s) = digits_value (n * 10 + (code c - 48)) s

-- `s.lstrip("-")`
unfoldable pub strip_minus : String → String
strip_minus String.[] = String.[]
strip_minus (String.◌∷◌ c s) =
    let rest = strip_minus s in if code c == b'-' then rest else String.◌∷◌ c s

-- The minus signs in front.
unfoldable pub minus_count : String → ℕ
minus_count String.[] = 0
minus_count (String.◌∷◌ c s) = let rest = minus_count s in if code c == b'-' then suc rest else 0

abbrev number_target : ℕ → ℕ → Target
number_target zero n = steps n
number_target (suc zero) n = if n == 0 then steps 0 else backwards
number_target (suc (suc k)) n = no_number

unfoldable pub parse_target : String → Target
unfolding all_digits digits_value strip_minus minus_count strip
parse_target arg =
    let a = strip arg in
    if is_empty a
    then blank
    else if is_digits (strip_minus a)
    then number_target (minus_count a) (digits_value 0 (strip_minus a))
    else checkpoint a

-- One line of the report, for one entry.
pub data Line : Type 0 where
  created : (path : String) → Line
  no_runtime : (path : String) → Line
  restored : (path : String) → Line
  failed : (path : String) → Error → Line

pub data Reply : Type 0 where
  listing : Reply
  nothing : Reply
  no_match : String → Reply
  out_of_range : Reply
  report : List Line → Reply
  -- the command itself raises
  value_error : Reply

-- `entry.before_content or ""`
abbrev pub content_of : Option String → String
content_of none = ""
content_of (some text) = text

-- `_write_runtime`: a runtime at the project root with the session's hooks, mode, rules and prompt,
-- without a ring and without an allowlist.
abbrev pub write_runtime : Config → String → Config
write_runtime session root = record session {
  root = some root;
  has_ring = false;
  tool_allowlist = none;
}

module _ {W : Type 0} (host : Host W) where
  abbrev pub restore_decision : CheckpointEntry → W → Decision
  restore_decision e w = record {
    id = "rewind-" <> e.id <> "-" <> host.fresh_id w;
    source = "cli";
    type = "code.write_file";
    payload =
        object
          (entry "path" (str e.path) (entry "content" (str (content_of e.before_content)) end));
  }

  abbrev line_of : String → Result Value → Line
  line_of path (ok output) = restored path
  line_of path (err e) = failed path e

  abbrev restore_existing : Option Config → CheckpointEntry → State W → Line × State W
  restore_existing none e s = (no_runtime e.path, s)
  restore_existing (some cfg) e s =
      let ran = apply host cfg (restore_decision e s.world) s in (line_of e.path ran.0, ran.1)

  unfoldable pub restore : Option Config → CheckpointEntry → State W → Line × State W
  restore rt e s = if not e.existed then (created e.path, s) else restore_existing rt e s

  -- The loop over the entries, newest first.
  unfoldable pub restore_all : Option Config → List CheckpointEntry → State W → List Line × State W
  restore_all rt [] s = ([], s)
  restore_all rt (e ∷ es) s =
      let first = restore rt e s in
      let rest = restore_all rt es first.1 in (first.0 ∷ rest.0, rest.1)

  unfoldable pub rewind_steps : Option Config → ℕ → State W → Reply × State W
  rewind_steps rt n s =
      if ltb n 1 || ltb (length s.ring.entries) n
      then (out_of_range, s)
      else let done = restore_all rt (last_n s.ring n) s in
        let after = done.1 in (report done.0, record after { ring = drop_last_n after.ring n })

  abbrev rewind_found : Option Config → String → Option ℕ → State W → Reply × State W
  rewind_found rt id none s = (no_match id, s)
  rewind_found rt id (some n) s = rewind_steps rt n s

  abbrev rewind_target : Option Config → Target → State W → Reply × State W
  rewind_target rt blank s = (listing, s)
  rewind_target rt (steps n) s = rewind_steps rt n s
  rewind_target rt backwards s = (out_of_range, s)
  rewind_target rt no_number s = (value_error, s)
  rewind_target rt (checkpoint id) s = rewind_found rt id (position_from_newest s.ring id) s

  abbrev is_blank_target : Target → Bool
  is_blank_target blank = true
  is_blank_target _ = false

  -- `cmd_rewind`; `rt` is what `_write_runtime` returns, `none` where it cannot build a runtime
  unfoldable pub cmd_rewind : Option Config → String → State W → Reply × State W
  unfolding rewind_steps
  cmd_rewind rt arg s =
      let target = parse_target arg in
      if not (is_blank_target target) && (length s.ring.entries == 0)
      then (nothing, s)
      else rewind_target rt target s
