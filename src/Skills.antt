-- ===== src/Skills.antt =====
-- harness/skills.py: the skills that a user wrote as markdown files, of a project and of the user.
-- The files of a directory are given with what reading them gives, in the order of their names;
-- `str.isidentifier`, `str.splitlines` and `str.lower` are parameters. `render_template` is left
-- out.
mod Tiers
mod Tests
use Prim.Native.Char.{Char, code}
use Prim.Native.String.{[] as nil_text, ◌∷◌ as cons_text}
use jaros_code.Prelude.{
  ℕ, String, Bool, true, false, Option, none, some, List, [], ◌∷◌, arith, ◌==◌, str_eq,
  if◌then◌else◌,
}
use jaros_code.Text.{strip, is_empty}
use jaros_code.Lines.{join}
use jaros_code.Exec.{Error, other_error, Result, ok, err}
use jaros_code.Dict.{Dict, lookup, assign, update}

pub record SkillDef : Type 0 where
  pub name : String
  pub description : String
  pub argument_hint : String
  pub body : String
  pub source : String

-- What `read_text` of a file gives; bytes that are no UTF-8 raise UnicodeDecodeError.
pub data FileText : Type 0 where
  content : String → FileText
  os_error undecodable : FileText

pub record SkillFile : Type 0 where
  pub stem : String
  pub path : String
  pub read : FileText

abbrev longer : Char → Option (String × String) → Option (String × String)
longer c none = none
longer c (some (key, value)) = some (cons_text c key, value)

-- `line.partition(":")`, where a colon is in the line.
unfoldable pub at_colon : String → Option (String × String)
at_colon nil_text = none
at_colon (cons_text c s) =
    let rest = at_colon s in if code c == 58 then some (nil_text, s) else longer c rest

-- `text.lstrip("\n")`
unfoldable pub lstrip_breaks : String → String
lstrip_breaks nil_text = nil_text
lstrip_breaks (cons_text c s) =
    let rest = lstrip_breaks s in if code c == 10 then rest else cons_text c s

abbrev or_else : Option String → String → String
or_else none default = default
or_else (some s) default = s

abbrev pub unicode_error : Error
unicode_error = other_error "UnicodeDecodeError"

module _ (lower : String → String) (splitlines : String → List String) where
  abbrev with_key : Dict String → Option (String × String) → Dict String
  with_key meta none = meta
  with_key meta (some (key, value)) = assign meta (lower (strip key)) (strip value)

  -- The keys up to the closing line, and the lines after it, if there is one.
  unfoldable pub scan_meta : Dict String → List String → Option (Dict String × List String)
  scan_meta meta [] = none
  scan_meta meta (line ∷ rest) =
      let later = scan_meta (with_key meta (at_colon line)) rest in
      if str_eq (strip line) "---" then some (meta, rest) else later

  abbrev closed : String → Option (Dict String × List String) → Dict String × String
  closed text none = ([], text)
  closed text (some (meta, rest)) = (meta, lstrip_breaks (join rest))

  abbrev opened : String → List String → Dict String × String
  opened text [] = ([], text)
  opened text (first ∷ rest) =
      if str_eq (strip first) "---" then closed text (scan_meta [] rest) else ([], text)

  unfoldable pub split_frontmatter : String → Dict String × String
  split_frontmatter text = opened text (splitlines text)

  abbrev skill_of : SkillFile → Dict String × String → Option SkillDef
  skill_of file (meta, body) =
      if is_empty (strip body)
      then none
      else some (record {
        name = file.stem;
        description = or_else (lookup meta "description") "";
        argument_hint =
            or_else (lookup meta "argument-hint") (or_else (lookup meta "argument_hint") "");
        body = strip body;
        source = file.path;
      })

  abbrev pub parse_text : SkillFile → FileText → Result (Option SkillDef)
  parse_text file (content text) = ok (skill_of file (split_frontmatter text))
  parse_text file os_error = ok none
  parse_text file undecodable = err unicode_error

  module _ (is_identifier : String → Bool) where
    unfoldable pub parse_skill_file : SkillFile → Result (Option SkillDef)
    parse_skill_file file = if is_identifier file.stem then parse_text file file.read else ok none

    abbrev pub with_skill : Dict SkillDef → Option SkillDef → Dict SkillDef
    with_skill out none = out
    with_skill out (some skill) = assign out skill.name skill

    -- An exception while one file is parsed ends the loop.
    abbrev pub step : Dict SkillDef → Result (Option SkillDef) → Result (Dict SkillDef)
    step out (ok found) = ok (with_skill out found)
    step out (err e) = err e

    abbrev pub next :
        Result (Dict SkillDef) → (Dict SkillDef → Result (Dict SkillDef)) → Result (Dict SkillDef)
    next (ok out) rest = rest out
    next (err e) rest = err e

    unfoldable pub discover_tier : Dict SkillDef → List SkillFile → Result (Dict SkillDef)
    discover_tier out [] = ok out
    discover_tier out (file ∷ files) =
        next (step out (parse_skill_file file)) (λ more. discover_tier more files)

    -- A tier that raises contributes nothing.
    abbrev pub or_empty_tier : Result (Dict SkillDef) → Dict SkillDef
    or_empty_tier (ok skills) = skills
    or_empty_tier (err e) = []

    unfoldable pub discover_skills : (project user : List SkillFile) → Dict SkillDef
    discover_skills project user =
        update (or_empty_tier (discover_tier [] user)) (or_empty_tier (discover_tier [] project))
