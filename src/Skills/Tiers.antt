-- ===== src/Skills/Tiers.antt =====
-- Which skill of harness/skills.py a name stands for.
use mathlib.Core.Path.{subst}
use jaros_code.Prelude.{
  String, ◌≡◌, refl, ap, sym, ◌∙◌, Bool, true, false, Option, none, some, List, [], ◌∷◌, arith,
  str_eq, eq_iff, if◌then◌else◌, inl, inr, Bool-cases,
}
use jaros_code.Exec.{Result, ok, err}
use jaros_code.Dict.{Dict, lookup, assign, update, IsFresh, IsDict, lookup-assign, lookup-IsFresh}
use jaros_code.Skills.{
  SkillDef, SkillFile, parse_skill_file, discover_tier, discover_skills, or_empty_tier, step, next,
}

abbrev pub first_of {ℓ} : {A : Type ℓ} → Option A → Option A → Option A
first_of none other = other
first_of (some a) other = some a

module _ {ℓ} {A : Type ℓ} where
  IsFresh-assign :
      (d : Dict A) (i k : String) (b : A)
      → IsFresh i d
      → str_eq k i ≡ false
      → IsFresh i (assign d k b)
  unfolding assign
  IsFresh-assign [] i k b h e = (e, tt)
  IsFresh-assign ((j, a) ∷ d) i k b h e = elim (Bool-cases (str_eq j k)) [
    | inl same ↦ rw same h
    | inr other ↦ rw other (h.0, IsFresh-assign d i k b h.1 e)
  ]

  pub assign-IsDict : (d : Dict A) (k : String) (b : A) → IsDict d → IsDict (assign d k b)
  unfolding assign
  assign-IsDict [] k b h = (tt, tt)
  assign-IsDict ((j, a) ∷ d) k b h = elim (Bool-cases (str_eq j k)) [
    | inl same ↦ rw same h
    | inr other ↦
        let e : str_eq k j ≡ false = ground (arith, eq_iff j k, eq_iff k j, other) in
        rw other (IsFresh-assign d j k b h.0 e, assign-IsDict d k b h.1)
  ]

  -- `d.update(e)` reads as e where e has the key, and as d otherwise.
  pub lookup-update :
      (d e : Dict A) (k : String)
      → IsDict e
      → lookup (update d e) k ≡ first_of (lookup e k) (lookup d k)
  unfolding lookup update
  lookup-update d [] k h = refl
  lookup-update d ((j, a) ∷ e) k h = elim (Bool-cases (str_eq j k)) [
    | inl same ↦
        let absent : lookup e k ≡ none =
          lookup-IsFresh e k (subst (λ i. IsFresh i e) ((eq_iff j k).0 same) h.0) in
        lookup-update (assign d j a) e k h.1 ∙ rw (absent, lookup-assign d j k a, same) refl
    | inr other ↦ lookup-update (assign d j a) e k h.1 ∙ rw (lookup-assign d j k a, other) refl
  ]

abbrev raises_with : Result (Option SkillDef) → Bool → Bool
raises_with (ok found) rest = rest
raises_with (err e) rest = true

abbrev named_so : String → Option SkillDef → Option SkillDef
named_so n none = none
named_so n (some skill) = if str_eq skill.name n then some skill else none

abbrev found_with : String → Result (Option SkillDef) → Option SkillDef → Option SkillDef
found_with n (ok found) rest = first_of rest (named_so n found)
found_with n (err e) rest = rest

-- The result of a loop that started from `out`.
Tier : Bool → (String → Option SkillDef) → Dict SkillDef → Result (Dict SkillDef) → Type 0
Tier bad found out (ok d) =
    (bad ≡ false) × IsDict d × ((n : String) → lookup d n ≡ first_of (found n) (lookup out n))
Tier bad found out (err e) = bad ≡ true

first_of_assoc {ℓ} :
    {A : Type ℓ} (a b c : Option A) → first_of a (first_of b c) ≡ first_of (first_of a b) c
first_of_assoc none b c = refl
first_of_assoc (some a) b c = refl

first_of-none {ℓ} : {A : Type ℓ} (a : Option A) → first_of a none ≡ a
first_of-none none = refl
first_of-none (some a) = refl

first_of_chosen {ℓ} :
    {A : Type ℓ} (b : Bool) (a : A) (other : Option A)
    → (if b then some a else other) ≡ first_of (if b then some a else none) other
first_of_chosen true a other = refl
first_of_chosen false a other = refl

lookup-with_name :
    (out : Dict SkillDef) (skill : SkillDef) (n : String)
    → lookup (assign out skill.name skill) n ≡ first_of (named_so n (some skill)) (lookup out n)
lookup-with_name out skill n =
    lookup-assign out skill.name n skill
    ∙ first_of_chosen (str_eq skill.name n) skill (lookup out n)

module _ (lower : String → String) (splitlines : String → List String)
    (is_identifier : String → Bool) where
  abbrev parsed : SkillFile → Result (Option SkillDef)
  parsed file = parse_skill_file lower splitlines is_identifier file

  -- A file with a name that can be a command cannot be decoded.
  abbrev pub tier_raises : List SkillFile → Bool
  tier_raises [] = false
  tier_raises (file ∷ files) = raises_with (parsed file) (tier_raises files)

  -- The skill of a name in a list of files: that of the last one that has it
  abbrev pub found_in : List SkillFile → String → Option SkillDef
  found_in [] n = none
  found_in (file ∷ files) n = found_with n (parsed file) (found_in files n)

  -- The same where no file raises, and none otherwise.
  abbrev pub found_tier : List SkillFile → String → Option SkillDef
  found_tier files n = if tier_raises files then none else found_in files n

  weaken :
      (bad : Bool) (found : String → Option SkillDef) (out : Dict SkillDef) (skill : SkillDef)
      (r : Result (Dict SkillDef))
      → Tier bad found (assign out skill.name skill) r
      → Tier bad (λ n. first_of (found n) (named_so n (some skill))) out r
  unfolding Tier
  weaken bad found out skill (ok d) (fine, dict, reads) = (
    fine,
    dict,
    λ n.
        reads n
        ∙ ap (first_of (found n)) (lookup-with_name out skill n)
        ∙ first_of_assoc (found n) (named_so n (some skill)) (lookup out n),
  )
  weaken bad found out skill (err e) h = h

  unchanged :
      (bad : Bool) (found : String → Option SkillDef) (out : Dict SkillDef)
      (r : Result (Dict SkillDef))
      → Tier bad found out r
      → Tier bad (λ n. first_of (found n) none) out r
  unfolding Tier
  unchanged bad found out (ok d) (fine, dict, reads) = (
    fine,
    dict,
    λ n. reads n ∙ ap (λ o. first_of o (lookup out n)) (sym (first_of-none (found n))),
  )
  unchanged bad found out (err e) h = h

  next-Tier :
      (out : Dict SkillDef) (files : List SkillFile) (p : Result (Option SkillDef))
      (rest : Dict SkillDef → Result (Dict SkillDef))
      → IsDict out
      → ((more : Dict SkillDef)
          → IsDict more
          → Tier (tier_raises files) (found_in files) more (rest more))
      → Tier
          (raises_with p (tier_raises files))
          (λ n. found_with n p (found_in files n))
          out
          (next lower splitlines is_identifier (step lower splitlines is_identifier out p) rest)
  unfolding Tier
  next-Tier out files (err e) rest dict h = refl
  next-Tier out files (ok none) rest dict h =
      unchanged (tier_raises files) (found_in files) out (rest out) (h out dict)
  next-Tier out files (ok (some skill)) rest dict h =
      weaken (tier_raises files) (found_in files) out skill (rest (assign out skill.name skill))
        (h (assign out skill.name skill) (assign-IsDict out skill.name skill dict))

  discover_tier-Tier :
      (out : Dict SkillDef) (files : List SkillFile)
      → IsDict out
      → Tier
          (tier_raises files)
          (found_in files)
          out
          (discover_tier lower splitlines is_identifier out files)
  unfolding Tier discover_tier
  discover_tier-Tier out [] dict = (refl, dict, λ n. refl)
  discover_tier-Tier out (file ∷ files) dict =
      next-Tier out files (parsed file)
        (λ more. discover_tier lower splitlines is_identifier more files) dict
        (λ more h. discover_tier-Tier more files h)

  or_empty-Tier :
      (bad : Bool) (found : String → Option SkillDef) (r : Result (Dict SkillDef))
      → Tier bad found [] r
      → IsDict (or_empty_tier lower splitlines is_identifier r)
        × ((n : String)
            → lookup (or_empty_tier lower splitlines is_identifier r) n
              ≡ (if bad then none else found n))
  unfolding Tier lookup
  or_empty-Tier bad found (ok d) (fine, dict, reads) =
      (dict, λ n. reads n ∙ first_of-none (found n) ∙ rw fine refl)
  or_empty-Tier bad found (err e) h = (tt, λ n. rw h refl)

  -- A name stands for the last skill of that name in the project's files, or else for the last in
  -- the user's; a tier with a file that cannot be decoded stands for no skill at all, and leaves
  -- the other tier as it is.
  pub discover_skills-lookup :
      (project user : List SkillFile) (n : String)
      → lookup (discover_skills lower splitlines is_identifier project user) n
        ≡ first_of (found_tier project n) (found_tier user n)
  unfolding discover_skills
  discover_skills-lookup project user n =
      let ours =
        or_empty-Tier (tier_raises project) (found_in project)
          (discover_tier lower splitlines is_identifier [] project)
          (discover_tier-Tier [] project tt) in
      let theirs =
        or_empty-Tier (tier_raises user) (found_in user)
          (discover_tier lower splitlines is_identifier [] user) (discover_tier-Tier [] user tt) in
      lookup-update
        (or_empty_tier lower splitlines is_identifier
          (discover_tier lower splitlines is_identifier [] user))
        (or_empty_tier lower splitlines is_identifier
          (discover_tier lower splitlines is_identifier [] project))
        n ours.0
      ∙ rw (ours.1 n, theirs.1 n) refl
