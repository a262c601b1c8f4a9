-- ===== src/Oracles/Accepting.antt =====
-- What `grade_state_machine` accepts: the modules that behave, at each op of the script, as its
-- checks say, where the script itself agrees with the transitions.
use jaros_code.Prelude.{
  String, ◌≡◌, refl, sym, ◌∙◌, Bool, true, false, ◌&&◌, Option, none, some, List, [], ◌∷◌, str_eq,
  inl, inr, Bool-cases, All, OnSome,
}
use jaros_code.Value.{Fields}
use jaros_code.Dict.{IsDict}
use jaros_code.Oracles.Driver.{Outcome, Running, Invoke, call}
use jaros_code.Oracles.Rounds.{Round, reads_as, raises_as, reads_agree, rounds_agree}
use jaros_code.Oracles.StateMachine.{
  Op, Spec, transition, state_reader, expecting, target_of, round_of, round_at, construct_call,
  cons_round, walk, plan_of, build_drive_plan, then_rounds, driven, validate_spec,
  grade_state_machine,
}
use jaros_code.Oracles.Names.{is_ident}
use jaros_code.Oracles.Verdict.{and_true}
use jaros_code.Oracles.Grading.{drive_import-rounds}

-- What an op does in a state, given the transition declared for it: where it shall be accepted,
-- there is one and the state read afterwards is its target; where it shall be rejected, there is
-- none, the call raises the exception, and the state read afterwards is the one before.
abbrev pub op_holds :
    {V : Type 0}
    → (V → String → Bool)
    → (exception state : String) → (declared : Option String) → (accept : Bool)
    → (called read : Option (Outcome V)) → Bool
op_holds equal exception state none true called read = false
op_holds equal exception state (some next) true called read = reads_as equal next read
op_holds equal exception state none false called read =
    raises_as (some exception) called && reads_as equal state read
op_holds equal exception state (some next) false called read = false

abbrev pub next_state : String → Option String → Bool → String
next_state state (some next) true = next
next_state state _ _ = state

and_false : (a : Bool) → (a && false) ≡ false
and_false true = refl
and_false false = refl

module _ {V M : Type 0} (equal : V → String → Bool) (invoke : Invoke V M) (spec : Spec) where
  abbrev pub read_state : Running M → Option (Outcome V) × Running M
  read_state p = call invoke "entity.__class__.state.fget" state_reader.read_args Fields.end p

  -- The script, op by op, on the module itself, and the last read.
  abbrev pub conforms : String → List Op → Running M → Bool
  conforms state [] p =
      str_eq state spec.expect_final && reads_as equal spec.expect_final (read_state p).0
  conforms state (op ∷ ops) p =
      let called = call invoke (target_of op) op.args op.kwargs p in
      let read = read_state called.1 in
      let declared = transition spec state op.action in
      op_holds equal spec.reject_exception state declared op.accept called.0 read.0
      && conforms (next_state state declared op.accept) ops read.1

  abbrev judge : Option (List (Round String)) → Running M → Bool
  judge none p = false
  judge (some rs) p = rounds_agree equal invoke state_reader rs (expecting spec.expect_final) p

  judge-cons :
      (r : Round String) (state : String) (rs : Option (List (Round String))) (p : Running M)
      → r.expected ≡ expecting state
      → let called = call invoke r.target r.args r.kwargs p in
        let read = read_state called.1 in
        judge (cons_round r rs) p
        ≡ ((raises_as r.exception called.0 && reads_as equal state read.0) && judge rs read.1)
  unfolding rounds_agree reads_agree
  judge-cons r state none p h = sym (and_false _)
  judge-cons r state (some rs) p h =
      rw
        (
          h,
          and_true (reads_as equal state (read_state (call invoke r.target r.args r.kwargs p).1).0),
        )
        refl

  judge-then_rounds :
      (state : String) (op : Op) (later : String → Option (List (Round String)))
      → (holds : String → Running M → Bool)
      → ((next : String) (p : Running M) → judge (later next) p ≡ holds next p)
      → (declared : Option String) (accept : Bool) (p : Running M)
      → let called = call invoke (target_of op) op.args op.kwargs p in
        let read = read_state called.1 in
        judge (then_rounds later (round_of spec state op declared accept)) p ≡ (
          op_holds equal spec.reject_exception state declared accept called.0 read.0
          && holds (next_state state declared accept) read.1)
  judge-then_rounds state op later holds h none true p = refl
  judge-then_rounds state op later holds h (some next) true p =
      let called = call invoke (target_of op) op.args op.kwargs p in
      judge-cons (round_at op none next) next (later next) p refl
      ∙ rw (h next (read_state called.1).1) refl
  judge-then_rounds state op later holds h none false p =
      let called = call invoke (target_of op) op.args op.kwargs p in
      judge-cons (round_at op (some spec.reject_exception) state) state (later state) p refl
      ∙ rw (h state (read_state called.1).1) refl
  judge-then_rounds state op later holds h (some next) false p = refl

  judge-walk :
      (state : String) (ops : List Op) (p : Running M)
      → judge (walk spec state ops) p ≡ conforms state ops p
  unfolding walk rounds_agree reads_agree
  judge-walk state [] p = elim (Bool-cases (str_eq state spec.expect_final)) [
    | inl same ↦ rw same (and_true (reads_as equal spec.expect_final (read_state p).0))
    | inr other ↦ rw other refl
  ]
  judge-walk state (op ∷ ops) p =
      judge-then_rounds state op (λ next. walk spec next ops) (λ next. conforms next ops)
        (λ next. judge-walk next ops) (transition spec state op.action) op.accept p

  HasDicts : Option (List (Round String)) → Type 0
  HasDicts = OnSome (All (λ r. IsDict r.expected))

  cons_round-HasDicts :
      (r : Round String) (rs : Option (List (Round String)))
      → IsDict r.expected
      → HasDicts rs
      → HasDicts (cons_round r rs)
  unfolding HasDicts
  cons_round-HasDicts r none d h = tt
  cons_round-HasDicts r (some rs) d h = (d, h)

  then_rounds-HasDicts :
      (state : String) (op : Op) (later : String → Option (List (Round String)))
      → ((next : String) → HasDicts (later next))
      → (declared : Option String) (accept : Bool)
      → HasDicts (then_rounds later (round_of spec state op declared accept))
  unfolding HasDicts
  then_rounds-HasDicts state op later h none true = tt
  then_rounds-HasDicts state op later h (some next) true =
      cons_round-HasDicts (round_at op none next) (later next) (tt, tt) (h next)
  then_rounds-HasDicts state op later h none false =
      cons_round-HasDicts (round_at op (some spec.reject_exception) state) (later state) (tt, tt)
        (h state)
  then_rounds-HasDicts state op later h (some next) false = tt

  walk-HasDicts : (state : String) (ops : List Op) → HasDicts (walk spec state ops)
  unfolding walk HasDicts
  walk-HasDicts state [] = elim (Bool-cases (str_eq state spec.expect_final)) [
    | inl same ↦ rw same tt
    | inr other ↦ rw other tt
  ]
  walk-HasDicts state (op ∷ ops) =
      then_rounds-HasDicts state op (λ next. walk spec next ops) (λ next. walk-HasDicts next ops)
        (transition spec state op.action) op.accept

  driven-plan_of :
      (entity : String) (rs : Option (List (Round String))) (m : M)
      → HasDicts rs
      → driven equal invoke m (plan_of entity spec rs)
        ≡ judge rs (call invoke entity spec.construct_args spec.construct_kwargs (some m)).1
  unfolding HasDicts
  driven-plan_of entity none m h = refl
  driven-plan_of entity (some rs) m h =
      drive_import-rounds state_reader equal invoke (construct_call entity spec) refl rs "state"
        spec.expect_final [] h (tt, tt) m

  -- grade_state_machine accepts a built module exactly where the entity's name is an identifier, the
  -- spec is valid, and the script, op by op on what the constructor left, agrees with the declared
  -- transitions and with the module: the state read after an accepted op is the transition's target,
  -- a rejected op raises the named exception and reads the state before, and the script ends in the
  -- final state of the spec, read once more. An accepted op may raise.
  pub grade_state_machine-conforms :
      (entity : String) (m : M)
      → grade_state_machine equal invoke entity spec m ≡ (
          is_ident entity
          && validate_spec spec
          && conforms spec.initial spec.drive
              (call invoke entity spec.construct_args spec.construct_kwargs (some m)).1)
  unfolding grade_state_machine build_drive_plan
  grade_state_machine-conforms entity m =
      rw
        (
          driven-plan_of entity (walk spec spec.initial spec.drive) m
              (walk-HasDicts spec.initial spec.drive),
          judge-walk spec.initial spec.drive
              (call invoke entity spec.construct_args spec.construct_kwargs (some m)).1,
        )
        refl
