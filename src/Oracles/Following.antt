-- ===== src/Oracles/Following.antt =====
-- The scripts that a plan exists for, and that a module which implements the declared state machine
-- is accepted on them.
use mathlib.Core.Path.{subst}
use jaros_code.Prelude.{
  String, ◌≡◌, refl, sym, ◌∙◌, ◌↔◌, Bool, true, false, ◌&&◌, Option, none, some, List, [], ◌∷◌,
  str_eq, arith, eq_iff, eq_refl, if◌then◌else◌,
}
use jaros_code.Oracles.Driver.{Invoke, call}
use jaros_code.Oracles.Rounds.{Round, reads_as, raises_as}
use jaros_code.Oracles.StateMachine.{
  plan_of, Op, Spec, transition, target_of, round_of, then_rounds, cons_round, walk,
  build_drive_plan, validate_spec, grade_state_machine,
}
use jaros_code.Oracles.Names.{is_ident}
use jaros_code.Oracles.Lists.{all_of}
use jaros_code.Oracles.Accepting.{read_state, conforms, grade_state_machine-conforms}

-- The script leads from a state to another: each op that shall be accepted takes a declared
-- transition, and each that shall be rejected has none and stays.
pub data Follows (spec : Spec) : String → List Op → String → Type 0 where
  done : {s : String} → Follows spec s [] s
  accepted :
      {s next t : String} {op : Op} {ops : List Op}
      → transition spec s op.action ≡ some next
      → op.accept ≡ true
      → Follows spec next ops t
      → Follows spec s (op ∷ ops) t
  refused :
      {s t : String} {op : Op} {ops : List Op}
      → transition spec s op.action ≡ none
      → op.accept ≡ false
      → Follows spec s ops t
      → Follows spec s (op ∷ ops) t

-- Something, and not none.
abbrev pub is_some {ℓ} : {A : Type ℓ} → Option A → Bool
is_some none = false
is_some (some a) = true

is_some-cons_round :
    {E : Type 0} (r : Round E) (rs : Option (List (Round E)))
    → is_some (cons_round r rs) ≡ is_some rs
is_some-cons_round r none = refl
is_some-cons_round r (some rs) = refl

module _ (spec : Spec) where
  walk-Follows :
      (s t : String) (ops : List Op)
      → Follows spec s ops t
      → t ≡ spec.expect_final
      → is_some (walk spec s ops) ≡ true
  unfolding walk
  walk-Follows s t [] done e = rw (e, eq_refl spec.expect_final) refl
  walk-Follows s t (op ∷ ops) (accepted {next = next} d a f) e =
      rw (d, a, is_some-cons_round _ (walk spec next ops)) (walk-Follows next t ops f e)
  walk-Follows s t (op ∷ ops) (refused d a f) e =
      rw (d, a, is_some-cons_round _ (walk spec s ops)) (walk-Follows s t ops f e)

  Follows-nil :
      (s t : String) (b : Bool)
      → str_eq s t ≡ b
      → is_some {A = List (Round String)} (if b then some [] else none) ≡ true
      → Follows spec s [] t
  Follows-nil s t true e h = subst (λ u. Follows spec s [] u) ((eq_iff s t).0 e) done
  Follows-nil s t false e h = ground arith

  Follows-then_rounds :
      (s t : String) (op : Op) (ops : List Op) (later : String → Option (List (Round String)))
      → ((next : String) → is_some (later next) ≡ true → Follows spec next ops t)
      → (declared : Option String) (accept : Bool) → transition spec s op.action ≡ declared
      → op.accept ≡ accept
      → is_some (then_rounds later (round_of spec s op declared accept)) ≡ true
      → Follows spec s (op ∷ ops) t
  Follows-then_rounds s t op ops later f none true d a h = ground arith
  Follows-then_rounds s t op ops later f (some next) true d a h =
      accepted d a (f next (sym (is_some-cons_round _ (later next)) ∙ h))
  Follows-then_rounds s t op ops later f none false d a h =
      refused d a (f s (sym (is_some-cons_round _ (later s)) ∙ h))
  Follows-then_rounds s t op ops later f (some next) false d a h = ground arith

  Follows-walk :
      (s : String) (ops : List Op)
      → is_some (walk spec s ops) ≡ true
      → Follows spec s ops spec.expect_final
  unfolding walk
  Follows-walk s [] h = Follows-nil s spec.expect_final (str_eq s spec.expect_final) refl h
  Follows-walk s (op ∷ ops) h =
      Follows-then_rounds s spec.expect_final op ops (λ next. walk spec next ops)
        (λ next. Follows-walk next ops) (transition spec s op.action) op.accept refl refl h

  is_some-plan_of :
      (entity : String) (rs : Option (List (Round String)))
      → is_some (plan_of entity spec rs) ≡ is_some rs
  is_some-plan_of entity none = refl
  is_some-plan_of entity (some rs) = refl

  -- A plan exists exactly for a script that leads, along the declared transitions, from the initial
  -- state to the final one.
  pub build_drive_plan-Follows :
      (entity : String)
      → (is_some (build_drive_plan entity spec) ≡ true)
        ↔ Follows spec spec.initial spec.drive spec.expect_final
  unfolding build_drive_plan
  build_drive_plan-Follows entity =
      let found = is_some-plan_of entity (walk spec spec.initial spec.drive) in
      (
        λ h. Follows-walk spec.initial spec.drive (sym found ∙ h),
        λ f. found ∙ walk-Follows spec.initial spec.expect_final spec.drive f refl,
      )

-- A module implements the declared machine, `At s m` being that it is in state s: its state reads as
-- s, a declared transition leads to its target, and any other action raises the named exception and
-- changes nothing.
pub record Implements {V M : Type 0} (equal : V → String → Bool) (invoke : Invoke V M) (spec : Spec)
    (At : String → M → Type 0) : Type 0 where
  pub reads :
      (s : String) (m : M)
      → At s m
      → let read = read_state equal invoke spec (some m) in
        (reads_as equal s read.0 ≡ true) × ((m' : M) × (read.1 ≡ some m') × At s m')
  pub moves :
      (s next : String) (m : M) (op : Op)
      → At s m
      → is_ident op.action ≡ true
      → transition spec s op.action ≡ some next
      → (m' : M) × ((call invoke (target_of op) op.args op.kwargs (some m)).1 ≡ some m')
        × At next m'
  pub refuses :
      (s : String) (m : M) (op : Op)
      → At s m
      → is_ident op.action ≡ true
      → transition spec s op.action ≡ none
      → let called = call invoke (target_of op) op.args op.kwargs (some m) in
        (raises_as (some spec.reject_exception) called.0 ≡ true)
        × ((m' : M) × (called.1 ≡ some m') × At s m')

pub and_first : (a b : Bool) → (a && b) ≡ true → a ≡ true
and_first true b h = refl
and_first false b h = h

pub and_second : (a b : Bool) → (a && b) ≡ true → b ≡ true
and_second true b h = h
and_second false b h = ground arith

validate_spec-actions :
    (spec : Spec) → validate_spec spec ≡ true → all_of (λ op. is_ident op.action) spec.drive ≡ true
unfolding validate_spec
validate_spec-actions spec h = and_second _ _ (and_first _ _ (and_first _ _ h))

module _ {V M : Type 0} (equal : V → String → Bool) (invoke : Invoke V M) (spec : Spec)
    (At : String → M → Type 0) (implements : Implements equal invoke spec At) where
  conforms-Follows :
      (s t : String) (ops : List Op)
      → Follows spec s ops t
      → t ≡ spec.expect_final
      → all_of (λ op. is_ident op.action) ops ≡ true
      → (m : M) → At s m
      → conforms equal invoke spec s ops (some m) ≡ true
  conforms-Follows s t [] done e n m at =
      let read = implements.reads spec.expect_final m (subst (λ u. At u m) e at) in
      rw (e, eq_refl spec.expect_final, read.0) refl
  conforms-Follows s t (op ∷ ops) (accepted {next = next} d a f) e n m at =
      let moved = implements.moves s next m op at (and_first _ _ n) d in
      let read = implements.reads next moved.0 moved.2 in
      rw (d, a, moved.1, read.0, read.1.1)
        (conforms-Follows next t ops f e (and_second _ _ n) read.1.0 read.1.2)
  conforms-Follows s t (op ∷ ops) (refused d a f) e n m at =
      let stayed = implements.refuses s m op at (and_first _ _ n) d in
      let read = implements.reads s stayed.1.0 stayed.1.2 in
      rw (d, a, stayed.0, stayed.1.1, read.0, read.1.1)
        (conforms-Follows s t ops f e (and_second _ _ n) read.1.0 read.1.2)

  -- A module that implements the declared machine, its constructor leaving it in the initial state,
  -- is accepted on every valid spec whose script the transitions allow.
  pub grade_state_machine-Implements :
      (entity : String) (m built : M)
      → is_ident entity ≡ true
      → validate_spec spec ≡ true
      → Follows spec spec.initial spec.drive spec.expect_final
      → (call invoke entity spec.construct_args spec.construct_kwargs (some m)).1 ≡ some built
      → At spec.initial built
      → grade_state_machine equal invoke entity spec m ≡ true
  grade_state_machine-Implements entity m built named valid follows construct at =
      grade_state_machine-conforms equal invoke spec entity m
      ∙ rw (named, valid, construct)
          (conforms-Follows spec.initial spec.expect_final spec.drive follows refl
            (validate_spec-actions spec valid) built at)
