-- ===== src/Adt/Winners.antt =====
-- Who wins where `classify` of harness/adt_oracle.py compares scores.
use mathlib.Core.Path.{subst}
use jaros_code.Prelude.{
  ℕ, ◌<◌, ◌≤◌, ◌≡◌, refl, ap, sym, ◌∙◌, some, List, [], ◌∷◌, map, arith, ltb, ◌==◌, inl, inr, ◌⊎◌,
  Bool-cases, All,
}
use jaros_code.Adt.Classify.{AdtClass, supported_classes, scored, best_of, winners, sole}

abbrev pub Scores : Type 0
Scores = List (AdtClass × ℕ)

abbrev pub table : (AdtClass → ℕ) → Scores
table f = map (λ c. (c, f c)) supported_classes

pub best_of-bounds : (xs : Scores) (n : ℕ) → best_of xs ≤ n → All (λ x. x.1 ≤ n) xs
best_of-bounds [] n h = tt
best_of-bounds ((c, m) ∷ xs) n h = (ground (arith, h), best_of-bounds xs n (ground (arith, h)))

winners-none :
    (n : ℕ) (xs : Scores) → winners n xs ≡ [] → All (λ x. x.1 ≤ n) xs → All (λ x. x.1 < n) xs
winners-none n [] h a = tt
winners-none n ((c, m) ∷ xs) h a =
    (ground (arith, h, a.0), winners-none n xs (ground (arith, h)) a.1)

All-left :
    (n : ℕ) (c : AdtClass) (xs : Scores)
    → All (λ x. x.1 < n) xs
    → All (λ x. (x.1 < n) ⊎ (x.0 ≡ c)) xs
All-left n c [] a = tt
All-left n c (x ∷ xs) a = (inl a.0, All-left n c xs a.1)

-- Where one class wins, each other one stays below.
pub winners-one :
    (n : ℕ) (c : AdtClass) (xs : Scores)
    → winners n xs ≡ c ∷ []
    → All (λ x. x.1 ≤ n) xs
    → All (λ x. (x.1 < n) ⊎ (x.0 ≡ c)) xs
winners-one n c [] h a = tt
winners-one n c ((d, m) ∷ xs) h a = elim (Bool-cases (m == n)) [
  | inl best ↦ (
    inr (ground (arith, h, best)),
    All-left n c xs (winners-none n xs (ground (arith, h, best)) a.1),
  )
  | inr less ↦ (inl (ground (arith, less, a.0)), winners-one n c xs (ground (arith, h, less)) a.1)
]

-- A class that wins has the score.
pub winners-first :
    (f : AdtClass → ℕ) (n : ℕ) (c : AdtClass) (cs : List AdtClass) (xs : Scores)
    → winners n xs ≡ c ∷ cs
    → All (λ x. (x.1 ≡ f x.0) × (0 < x.1)) xs
    → (f c ≡ n) × (0 < n)
winners-first f n c cs [] h a = ground (arith, h)
winners-first f n c cs ((d, m) ∷ xs) h a = elim (Bool-cases (m == n)) [
  | inl best ↦
      let same : d ≡ c = ground (arith, h, best) in
      let won : m ≡ n = ground (arith, best) in
      (ap f (sym same) ∙ sym a.0.0 ∙ won, ground (arith, won, a.0.1))
  | inr less ↦ winners-first f n c cs xs (ground (arith, h, less)) a.1
]

pub scored-positive :
    (f : AdtClass → ℕ) (cs : List AdtClass)
    → All (λ x. (x.1 ≡ f x.0) × (0 < x.1)) (scored (map (λ c. (c, f c)) cs))
scored-positive f [] = tt
scored-positive f (c ∷ cs) = elim (Bool-cases (ltb 0 (f c))) [
  | inl some_score ↦ rw some_score ((refl, ground (arith, some_score)), scored-positive f cs)
  | inr no_score ↦ rw no_score (scored-positive f cs)
]

pub scored-All :
    (P : AdtClass × ℕ → Type 0) (xs : Scores) → All P (scored xs) → All (λ x. (0 < x.1) → P x) xs
scored-All P [] a = tt
scored-All P ((c, n) ∷ xs) a = elim (Bool-cases (ltb 0 n)) [
  | inl some_score ↦
      let kept : scored ((c, n) ∷ xs) ≡ (c, n) ∷ scored xs = rw some_score refl in
      let both : All P ((c, n) ∷ scored xs) = subst (λ ys. All P ys) kept a in
      (λ h. both.0, scored-All P xs both.1)
  | inr no_score ↦
      let dropped : scored ((c, n) ∷ xs) ≡ scored xs = rw no_score refl in
      (
        λ h. absurd (ground (arith, h, no_score)),
        scored-All P xs (subst (λ ys. All P ys) dropped a),
      )
]

pub sole-some : (c : AdtClass) (cs : List AdtClass) → sole cs ≡ some c → cs ≡ c ∷ []
sole-some c [] h = ground (arith, h)
sole-some c (d ∷ []) h = ground (arith, h)
sole-some c (d ∷ e ∷ cs) h = ground (arith, h)

-- The class stands in a list once, with the score n, and all others are below.
abbrev pub Lone : AdtClass → ℕ → Scores → Type 0
Lone c n [] = ⊥
Lone c n ((d, m) ∷ xs) = ((d ≡ c) × (m ≡ n) × All (λ x. x.1 < n) xs) ⊎ ((m < n) × Lone c n xs)

best_of-below :
    (n : ℕ) (xs : Scores) → 0 < n → All (λ x. x.1 < n) xs → (best_of xs < n) × (winners n xs ≡ [])
best_of-below n [] pos a = (pos, refl)
best_of-below n ((d, m) ∷ xs) pos a =
    let rest = best_of-below n xs pos a.1 in
    (ground (arith, rest.0, a.0), ground (arith, rest.1, a.0))

pub Lone-wins :
    (c : AdtClass) (n : ℕ) (xs : Scores)
    → 0 < n
    → Lone c n xs
    → (best_of xs ≡ n) × (winners n xs ≡ c ∷ [])
Lone-wins c n [] pos none_left = absurd none_left
Lone-wins c n ((d, m) ∷ xs) pos (inl (same, won, a)) =
    let rest = best_of-below n xs pos a in
    (ground (arith, rest.0, won), ground (arith, rest.1, won, same))
Lone-wins c n ((d, m) ∷ xs) pos (inr (less, lone)) =
    let rest = Lone-wins c n xs pos lone in
    (ground (arith, rest.0, less), ground (arith, rest.1, less))

scored-below : (n : ℕ) (xs : Scores) → All (λ x. x.1 < n) xs → All (λ x. x.1 < n) (scored xs)
scored-below n [] a = tt
scored-below n ((d, m) ∷ xs) a = elim (Bool-cases (ltb 0 m)) [
  | inl some_score ↦ rw some_score (a.0, scored-below n xs a.1)
  | inr no_score ↦ rw no_score (scored-below n xs a.1)
]

pub Lone-scored : (c : AdtClass) (n : ℕ) (xs : Scores) → 0 < n → Lone c n xs → Lone c n (scored xs)
Lone-scored c n [] pos lone = lone
Lone-scored c n ((d, m) ∷ xs) pos (inl (same, won, a)) =
    let kept : scored ((d, m) ∷ xs) ≡ (d, m) ∷ scored xs = ground (arith, won, pos) in
    subst (λ ys. Lone c n ys) (sym kept) (inl (same, won, scored-below n xs a))
Lone-scored c n ((d, m) ∷ xs) pos (inr (less, lone)) = elim (Bool-cases (ltb 0 m)) [
  | inl some_score ↦
      let kept : scored ((d, m) ∷ xs) ≡ (d, m) ∷ scored xs = rw some_score refl in
      subst (λ ys. Lone c n ys) (sym kept) (inr (less, Lone-scored c n xs pos lone))
  | inr no_score ↦
      let dropped : scored ((d, m) ∷ xs) ≡ scored xs = rw no_score refl in
      subst (λ ys. Lone c n ys) (sym dropped) (Lone-scored c n xs pos lone)
]
