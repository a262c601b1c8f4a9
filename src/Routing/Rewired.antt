-- ===== src/Routing/Rewired.antt =====
-- What a rewire leaves, and that it is idempotent.
use jaros_code.Prelude.{
  eq_iff, ◌≢◌, String, ◌≡◌, refl, ap, sym, ◌∙◌, Bool, true, false, Option, none, some, List, inl,
  inr, ◌⊎◌, Bool-cases, eq_refl,
}
use jaros_code.Exec.{Error, Result, ok, err}
use jaros_code.Routing.Registry.{ModelProfile, ModelRegistry, lookup_by_id}
use jaros_code.Routing.Rewire.{
  Serving, Clerk, Rewired, is_ok, served_or_unknown, is_serving, activation, activated, after_swap,
  with_served, with_profile, rewire,
}

true_not_false : true ≡ false → ⊥
true_not_false h = absurd (cc)

abbrev pub did_work : Result (List String) → Bool
did_work (ok names) = true
did_work (err e) = false

is_serving-same :
    (before : Option String) (alias : String) → is_serving before alias ≡ true → before ≡ some alias
is_serving-same none alias h = absurd (cc)
is_serving-same (some b) alias h = ap some ((eq_iff b alias).0 h)

is_serving-other :
    (before : Option String) (alias : String)
    → is_serving before alias ≡ false
    → before ≢ some alias
is_serving-other before alias h e =
    true_not_false (sym (eq_refl alias) ∙ sym (ap (λ b. is_serving b alias) e) ∙ h)

module _ {W : Type 0} (clerk : Clerk W) (registry : ModelRegistry) (model_id : String)
    (s : Serving W) where
  -- The outside world after the served model was read, and what was read
  abbrev pub seen : W
  seen = (clerk.serving_state s.world).1

  abbrev pub served : Option String
  served = served_or_unknown (clerk.serving_state s.world).0

  -- The activation ran in a world and nothing after it: it left the outside world, the client points
  -- at the model's alias, which is reported as served, and the rewire is reported to work exactly
  -- where the activation did not raise.
  pub record Activated (p : ModelProfile) (w : W) (r : Rewired) (t : Serving W) : Type 0 where
    pub world : t.world ≡ (clerk.activate p.adaptation p.alias w).1
    pub client : t.client_alias ≡ some p.alias
    pub reported : r.served_after ≡ some p.alias
    pub works : is_ok r ≡ did_work (clerk.activate p.adaptation p.alias w).0

  -- The model is registered and it was the served one: it was not swapped.
  pub record WasServing (r : Rewired) (t : Serving W) : Type 0 where
    pub profile : ModelProfile
    pub registered : lookup_by_id registry model_id ≡ some profile
    pub same : served ≡ some profile.alias
    pub not_swapped : r.swapped ≡ false
    pub then_activated : Activated profile seen r t

  -- The model is registered and another one or none was served: the swap to it ran and did not raise,
  -- and the activation ran in the world that the swap left.
  pub record WasSwapped (r : Rewired) (t : Serving W) : Type 0 where
    pub profile : ModelProfile
    pub registered : lookup_by_id registry model_id ≡ some profile
    pub other : served ≢ some profile.alias
    pub swap_ran : (clerk.swap model_id seen).0 ≡ ok tt
    pub swapped : r.swapped ≡ true
    pub then_activated : Activated profile (clerk.swap model_id seen).1 r t

  -- The swap ran and raised: the rewire failed, nothing ran after it, and the client points where it
  -- did.
  pub record SwapRaised (r : Rewired) (t : Serving W) : Type 0 where
    pub profile : ModelProfile
    pub registered : lookup_by_id registry model_id ≡ some profile
    pub other : served ≢ some profile.alias
    pub error : Error
    pub raised : (clerk.swap model_id seen).0 ≡ err error
    pub not_swapped : r.swapped ≡ false
    pub fails : is_ok r ≡ false
    pub world : t.world ≡ (clerk.swap model_id seen).1
    pub client : t.client_alias ≡ s.client_alias

  -- The model is not registered: the rewire failed and touched nothing.
  pub record IsUnknown (r : Rewired) (t : Serving W) : Type 0 where
    pub unregistered : lookup_by_id registry model_id ≡ none
    pub not_swapped : r.swapped ≡ false
    pub fails : is_ok r ≡ false
    pub untouched : t ≡ s

  abbrev pub Explained : Rewired → Serving W → Type 0
  Explained r t = WasServing r t ⊎ (WasSwapped r t ⊎ (SwapRaised r t ⊎ IsUnknown r t))

module _ {W : Type 0} (clerk : Clerk W) where
  activated-Activated :
      (registry : ModelRegistry) (model_id : String) (s : Serving W) (p : ModelProfile)
      (swapped : Bool) (before : Option String) (t : Serving W)
      → let done = activated clerk model_id p swapped before t in
        Activated clerk registry model_id s p t.world done.0 done.1 × (done.0.swapped ≡ swapped)
  activated-Activated registry model_id s p swapped before t =
      reports (clerk.activate p.adaptation p.alias t.world).0 refl
    where
      reports :
          (o : Result (List String))
          → (clerk.activate p.adaptation p.alias t.world).0 ≡ o
          → Activated clerk registry model_id s p t.world
              (activation model_id p.alias swapped before o)
              (activated clerk model_id p swapped before t).1
            × ((activation model_id p.alias swapped before o).swapped ≡ swapped)
      reports (ok names) e =
          (record { world = refl; client = refl; reported = refl; works = rw e refl }, refl)
      reports (err x) e =
          (record { world = refl; client = refl; reported = refl; works = rw e refl }, refl)

  -- Every rewire is one of four. The registered model was served already: it is activated in the
  -- world in which the served model was read, and is not swapped. Another one or none was served: the
  -- swap ran, did not raise, and the model is activated in the world that it left. The swap raised:
  -- an error is reported, the world is as the swap left it, and the client's alias stays. The model is
  -- not registered: an error is reported, and nothing is touched. After an activation the client's
  -- alias is the model's, and success is reported exactly where the activation did not raise.
  pub rewire-Explained :
      (model_id : String) (registry : ModelRegistry) (s : Serving W)
      → let done = rewire clerk model_id registry s in
        Explained clerk registry model_id s done.0 done.1
  unfolding rewire
  rewire-Explained model_id registry s = go (lookup_by_id registry model_id) refl
    where
      swap :
          (p : ModelProfile)
          → lookup_by_id registry model_id ≡ some p
          → served clerk registry model_id s ≢ some p.alias
          → (o : Result (Unit {0})) → (clerk.swap model_id (seen clerk registry model_id s)).0 ≡ o
          → let t = record s { world = (clerk.swap model_id (seen clerk registry model_id s)).1 } in
            let done = after_swap clerk model_id p (served clerk registry model_id s) o t in
            Explained clerk registry model_id s done.0 done.1
      swap p e other (ok done) ran =
          let t = record s { world = (clerk.swap model_id (seen clerk registry model_id s)).1 } in
          let after =
            activated-Activated registry model_id s p true (served clerk registry model_id s) t in
          inr (
            inl (record {
              profile = p;
              registered = e;
              other = other;
              swap_ran = ran;
              swapped = after.1;
              then_activated = after.0;
            }))
      swap p e other (err x) ran = inr (
          inr (
            inl (record {
              profile = p;
              registered = e;
              other = other;
              error = x;
              raised = ran;
              not_swapped = refl;
              fails = refl;
              world = refl;
              client = refl;
            })))

      go :
          (o : Option ModelProfile)
          → lookup_by_id registry model_id ≡ o
          → Explained clerk registry model_id s
              (with_profile clerk model_id o s).0
              (with_profile clerk model_id o s).1
      go none e = inr (
          inr
            (inr (record { unregistered = e; not_swapped = refl; fails = refl; untouched = refl })))
      go (some p) e =
          let before = served clerk registry model_id s in
          let t = record s { world = seen clerk registry model_id s } in
          elim (Bool-cases (is_serving before p.alias)) [
            | inl same ↦
                let after = activated-Activated registry model_id s p false before t in
                rw same (
                  inl (record {
                    profile = p;
                    registered = e;
                    same = is_serving-same before p.alias same;
                    not_swapped = after.1;
                    then_activated = after.0;
                  }))
            | inr other ↦
                let ran = clerk.swap model_id t.world in
                rw other (swap p e (is_serving-other before p.alias other) ran.0 refl)
          ]

  -- A rewire to a registered model that is already served swaps nothing: on the outside world it acts
  -- by the activation alone, after the state was read, and it points the client at the model's alias.
  pub rewire-served :
      (model_id : String) (registry : ModelRegistry) (s : Serving W) (p : ModelProfile) (w : W)
      → lookup_by_id registry model_id ≡ some p
      → clerk.serving_state s.world ≡ (ok (some p.alias), w)
      → let done = rewire clerk model_id registry s in
        (done.0.swapped ≡ false)
        × (done.1.world ≡ (clerk.activate p.adaptation p.alias w).1)
        × (done.1.client_alias ≡ some p.alias)
        × (done.0.error
            ≡ (activation model_id p.alias false
                (some p.alias)
                (clerk.activate p.adaptation p.alias w).0).error)
  unfolding rewire
  rewire-served model_id registry s p w e state =
      let done : rewire clerk model_id registry s
          ≡ activated clerk model_id p false (some p.alias) (record s { world = w }) =
        ap (λ o. with_profile clerk model_id o s) e
        ∙ ap (λ r. with_served clerk model_id p (served_or_unknown r.0) (record s { world = r.1 }))
            state
        ∙ rw (eq_refl p.alias) in
      (
        ap (λ r. r.0.swapped) done ∙ activation-swapped (clerk.activate p.adaptation p.alias w).0,
        ap (λ r. r.1.world) done,
        ap (λ r. r.1.client_alias) done,
        ap (λ r. r.0.error) done,
      )
    where
      activation-swapped :
          (o : Result (List String))
          → (activation model_id p.alias false (some p.alias) o).swapped ≡ false
      activation-swapped (ok names) = refl
      activation-swapped (err x) = refl
