-- ===== src/Skills/Tests.antt =====
-- Runs of the discovery of skills.
use jaros_code.Prelude.{String, ◌≡◌, refl, Bool, true, some, [], ◌∷◌}
use jaros_code.Text.{lstrip, rstrip, strip, is_space}
use jaros_code.Lines.{split, join}
use jaros_code.Dict.{lookup, assign}
use jaros_code.Exec.{ok, err}
use jaros_code.Skills.{
  SkillDef, SkillFile, content, undecodable, at_colon, lstrip_breaks, scan_meta, split_frontmatter,
  parse_skill_file, discover_tier, discover_skills, unicode_error,
}
use jaros_code.Skills.Tiers

abbrev as_is : String → String
as_is s = s

abbrev any_name : String → Bool
any_name s = true

abbrev plan_file : SkillFile
plan_file = record {
  stem = "plan";
  path = "p/plan.md";
  read = content "---\ndescription: make a plan\n---\nDo $1.";
}

abbrev broken_file : SkillFile
broken_file = record { stem = "notes"; path = "p/notes.md"; read = undecodable }

abbrev plan_skill : SkillDef
plan_skill = record {
  name = "plan";
  description = "make a plan";
  argument_hint = "";
  body = "Do $1.";
  source = "p/plan.md";
}

plan_parsed : parse_skill_file as_is split any_name plan_file ≡ ok (some plan_skill)
unfolding parse_skill_file split_frontmatter scan_meta at_colon lstrip_breaks split join strip
    lstrip rstrip is_space lookup assign
plan_parsed = refl

-- One file that cannot be decoded takes the whole tier away.
broken_tier :
    discover_tier as_is split any_name [] (plan_file ∷ broken_file ∷ []) ≡ err unicode_error
unfolding discover_tier parse_skill_file split_frontmatter scan_meta at_colon lstrip_breaks split
    join strip lstrip rstrip is_space lookup assign
broken_tier = refl

discover_skills_example :
    lookup (discover_skills as_is split any_name (plan_file ∷ []) (broken_file ∷ [])) "plan"
    ≡ Tiers.first_of
        (Tiers.found_tier as_is split any_name (plan_file ∷ []) "plan")
        (Tiers.found_tier as_is split any_name (broken_file ∷ []) "plan")
discover_skills_example =
    Tiers.discover_skills-lookup as_is split any_name (plan_file ∷ []) (broken_file ∷ []) "plan"
