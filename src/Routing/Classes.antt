-- ===== src/Routing/Classes.antt =====
-- What the router of harness/model_router.py decides: the classes of problems, and the model.
use mathlib.Core.Path.{subst}
use jaros_code.Prelude.{
  String, ◌≡◌, refl, ap, sym, Bool, true, false, Option, none, some, List, [], ◌∷◌, ◌++◌, inl, inr,
  All, find, ◌⊎◌,
}
use jaros_code.Text.{contains}
use jaros_code.Value.{Value, Fields}
use jaros_code.Permissions.{one_of}
use jaros_code.Dict.{lookup}
use jaros_code.Tally.{CoverageTally, best_model_for, candidates}
use jaros_code.Tally.Ranking.{IsOrder, HasBest, IsBest, best_model_for-IsBest}
use jaros_code.Routing.Registry.{ModelRegistry, default_model}
use jaros_code.Routing.Router.{
  failure_class_map, ordered_errors, Features, extract_features, failure_texts, join_lines,
  error_in, failure_signal, failure_method, Classified, classify_deterministic, class_of_signal,
  mapped, classify, high_confidence, fallback_confidence, RoutingDecision, routed, route,
}

-- The classes that a problem can be given.
abbrev pub router_classes : List String
router_classes =
    "multi-step-repo" ∷ "standalone-fn-gen" ∷ "single-file-repair" ∷ "missing-method-or-attr"
    ∷ "logic-or-assertion" ∷ "signature-or-type" ∷ "missing-import" ∷ "undefined-name"
    ∷ "bounds-or-key" ∷ []

-- The first error name, in the order of the list, that a text contains.
pub record IsFirstError (text error : String) : Type 0 where
  pub before : List String
  pub after : List String
  pub split : ordered_errors ≡ before ++ error ∷ after
  pub found : contains text error ≡ true
  pub earlier : All (λ e. contains text e ≡ false) before

abbrev FoundIn : (String → Bool) → List String → Option String → Type 0
FoundIn p xs none = All (λ x. p x ≡ false) xs
FoundIn p xs (some x) =
    (before : List String) × (after : List String) × (xs ≡ before ++ x ∷ after)
    × (p x ≡ true)
    × All (λ y. p y ≡ false) before

find-FoundIn : (p : String → Bool) (xs : List String) → FoundIn p xs (find p xs)
find-FoundIn p [] = tt
find-FoundIn p (x ∷ xs) = go (p x) refl (find p xs) (find-FoundIn p xs)
  where
    next : (o : Option String) → p x ≡ false → FoundIn p xs o → FoundIn p (x ∷ xs) o
    next none miss h = (miss, h)
    next (some y) miss (before, after, split, hit, earlier) =
        (x ∷ before, after, ap (λ l. x ∷ l) split, hit, (miss, earlier))

    go :
        (b : Bool)
        → p x ≡ b
        → (o : Option String) → FoundIn p xs o
        → FoundIn p (x ∷ xs) (elim b [ true ↦ some x | false ↦ o ])
    go true hit o h = ([], xs, refl, hit, tt)
    go false miss o h = next o miss h

-- Every error name of the list has a class, and it is one of the router's.
abbrev HasClass : String → Type 0
HasClass error =
    (name : String) × (lookup failure_class_map error ≡ some name)
    × (one_of name router_classes ≡ true)

all-HasClass : All HasClass ordered_errors
unfolding lookup
all-HasClass = (
  ("missing-import", refl, refl),
  (
    ("missing-import", refl, refl),
    (
      ("missing-method-or-attr", refl, refl),
      (
        ("signature-or-type", refl, refl),
        (
          ("logic-or-assertion", refl, refl),
          (
            ("undefined-name", refl, refl),
            (
              ("bounds-or-key", refl, refl),
              (("bounds-or-key", refl, refl), (("logic-or-assertion", refl, refl), tt)),
            ),
          ),
        ),
      ),
    ),
  ),
)

All-at : (P : String → Type 0) (xs ys : List String) (x : String) → All P (xs ++ x ∷ ys) → P x
All-at P [] ys x h = h.0
All-at P (y ∷ xs) ys x h = All-at P xs ys x h.1

-- A classification by the failure in a text.
pub record IsByFailure (problem : Fields) (c : Classified) : Type 0 where
  pub error : String
  pub first : IsFirstError (join_lines (failure_texts problem)) error
  pub of_error : lookup failure_class_map error ≡ some c.problem_class
  pub confidence : c.confidence ≡ high_confidence
  pub method : c.method ≡ failure_method

classify_deterministic-known :
    (f : Features) → one_of (classify_deterministic f).problem_class router_classes ≡ true
unfolding classify_deterministic
classify_deterministic-known f = go f.is_multi_file f.is_repo_task f.has_examples
  where
    go :
        (m r e : Bool)
        → one_of
            (classify_deterministic
              (record { has_examples = e; is_repo_task = r; is_multi_file = m })).problem_class
            router_classes
          ≡ true
    go true r e = refl
    go false true e = refl
    go false false true = refl
    go false false false = refl

-- A class is one of the nine. It is that of the first error name, in the order of the source's list,
-- that the problem's failure texts contain, where they contain one, and the structural class
-- otherwise.
pub classify_lem :
    (problem : Fields) (f : Features)
    → (one_of (classify problem f).problem_class router_classes ≡ true)
      × ((classify problem f ≡ classify_deterministic f) ⊎ IsByFailure problem (classify problem f))
unfolding classify failure_signal
classify_lem problem f = go (failure_texts problem) refl
  where
    Goal : Classified → Type 0
    Goal c =
        (one_of c.problem_class router_classes ≡ true)
        × ((c ≡ classify_deterministic f) ⊎ IsByFailure problem c)

    structural_goal : Goal (classify_deterministic f)
    structural_goal = (classify_deterministic-known f, inl refl)

    signal :
        (text : String) (o : Option String)
        → join_lines (failure_texts problem) ≡ text
        → FoundIn (contains text) ordered_errors o
        → Goal (mapped (class_of_signal o) (classify_deterministic f))
    signal text none e h = structural_goal
    signal text (some error) e (before, after, split, hit, earlier) =
        let known = All-at HasClass before after error (subst (All HasClass) split all-HasClass) in
        let made : mapped (class_of_signal (some error)) (classify_deterministic f)
            ≡ mapped (some known.0) (classify_deterministic f) =
          ap (λ o. mapped o (classify_deterministic f)) known.1 in
        subst Goal (sym made) (
          known.2,
          inr (record {
            error = error;
            first =
                subst (λ t. IsFirstError t error) (sym e)
                  (record {
                    before = before;
                    after = after;
                    split = split;
                    found = hit;
                    earlier = earlier;
                  });
            of_error = known.1;
            confidence = refl;
            method = refl;
          }),
        )

    go :
        (ts : List String)
        → failure_texts problem ≡ ts
        → Goal (mapped (class_of_signal (error_in ts)) (classify_deterministic f))
    go [] e = structural_goal
    go (t ∷ ts) e =
        signal (join_lines (t ∷ ts))
          (find (λ error. contains (join_lines (t ∷ ts)) error) ordered_errors) (ap join_lines e)
          (find-FoundIn (contains (join_lines (t ∷ ts))) ordered_errors)

-- A decision for a measured class: the best model of the tally, at the confidence of the class.
pub record IsMeasured {Score : Type 0} (gt : Score → Score → Bool) (tally : CoverageTally Score)
    (c : Classified) (d : RoutingDecision) : Type 0 where
  pub best : HasBest gt tally c.problem_class d.model_id
  pub confidence : d.confidence ≡ c.confidence
  pub gap : d.is_gap ≡ false

-- A decision for a class without a measured model: the registry's default, as a gap.
pub record IsGap {Score : Type 0} (gt : Score → Score → Bool) (registry : ModelRegistry)
    (tally : CoverageTally Score) (c : Classified) (d : RoutingDecision) : Type 0 where
  pub unmeasured : candidates gt tally c.problem_class ≡ []
  pub default : d.model_id ≡ default_model registry
  pub confidence : d.confidence ≡ fallback_confidence
  pub gap : d.is_gap ≡ true

module _ {Score : Type 0} (gt : Score → Score → Bool) (show : Value → String) where
  -- Where `>` orders the scores, `route` gives every problem the class of `classify`; it decides for
  -- a model whose cell of that class no other cell of the class exceeds, at the confidence of the
  -- class, or, exactly where the class has no cell, for the registry's default model at the fallback
  -- confidence and with the gap marked.
  pub route-IsMeasured :
      (problem : Fields) (registry : ModelRegistry) (tally : CoverageTally Score)
      → IsOrder gt
      → let c = classify problem (extract_features show problem) in
        let d = route gt show problem registry tally in
        (d.problem_class ≡ c.problem_class)
        × (IsMeasured gt tally c d ⊎ IsGap gt registry tally c d)
  unfolding route
  route-IsMeasured problem registry tally order =
      let c = classify problem (extract_features show problem) in
      go c (best_model_for gt tally c.problem_class)
        (best_model_for-IsBest gt tally c.problem_class order)
    where
      go :
          (c : Classified) (o : Option String)
          → IsBest gt tally c.problem_class o
          → ((routed registry c o).problem_class ≡ c.problem_class)
            × (IsMeasured gt tally c (routed registry c o)
                ⊎ IsGap gt registry tally c (routed registry c o))
      go c none (unmeasured, ranked) = (
        refl,
        inr (record { unmeasured = unmeasured; default = refl; confidence = refl; gap = refl }),
      )
      go c (some best) h = (refl, inl (record { best = h; confidence = refl; gap = refl }))
