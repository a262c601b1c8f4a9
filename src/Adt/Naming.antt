-- ===== src/Adt/Naming.antt =====
-- When `classify` of harness/adt_oracle.py names a data type.
use jaros_code.Prelude.{
  ℕ, ◌<◌, ◌≤◌, String, ◌≡◌, refl, ap, Bool, false, some, List, [], ◌∷◌, arith, ltb, ◌==◌, inl, inr,
  ◌⊎◌, ◌↔◌, Bool-cases, All,
}
use jaros_code.Adt.Winners.{
  table, best_of-bounds, winners-one, winners-first, scored-positive, scored-All, sole-some, Lone,
  Lone-wins, Lone-scored,
}
use jaros_code.Adt.Classify.{
  AdtClass, lru_class, priority_queue_class, ttl_store_class, fifo_class, ring_buffer_class,
  supported_classes, scored, best_of, winners, sole, score, classify,
}

-- The place of a class in the table
abbrev pub place : AdtClass → ℕ
place lru_class = 0
place priority_queue_class = 1
place ttl_store_class = 2
place fifo_class = 3
place ring_buffer_class = 4

-- A class scores, and more than each other one.
abbrev pub IsTop : (AdtClass → ℕ) → AdtClass → Type 0
IsTop f c = (0 < f c) × ((d : AdtClass) → (place d == place c) ≡ false → f d < f c)

case_below :
    (f : AdtClass → ℕ) (d c : AdtClass) (n : ℕ)
    → f c ≡ n
    → 0 < n
    → ((0 < f d) → (f d < n) ⊎ (d ≡ c))
    → (place d == place c) ≡ false
    → f d < f c
case_below f d c n e pos a other = elim (Bool-cases (ltb 0 (f d))) [
  | inl some_score ↦ elim (a (ground (arith, some_score))) [
    | inl less ↦ ground (arith, less, e)
    | inr same ↦ absurd (ground (arith, ap place same, other))
  ]
  | inr no_score ↦ ground (arith, no_score, e, pos)
]

below :
    (f : AdtClass → ℕ) (c : AdtClass) (n : ℕ)
    → f c ≡ n
    → 0 < n
    → All {A = AdtClass × ℕ} (λ x. (0 < x.1) → (x.1 < n) ⊎ (x.0 ≡ c)) (table f)
    → (d : AdtClass) → (place d == place c) ≡ false
    → f d < f c
below f c n e pos a lru_class other = case_below f lru_class c n e pos a.0 other
below f c n e pos a priority_queue_class other =
    case_below f priority_queue_class c n e pos a.1.0 other
below f c n e pos a ttl_store_class other = case_below f ttl_store_class c n e pos a.1.1.0 other
below f c n e pos a fifo_class other = case_below f fifo_class c n e pos a.1.1.1.0 other
below f c n e pos a ring_buffer_class other =
    case_below f ring_buffer_class c n e pos a.1.1.1.1.0 other

IsTop-Lone : (f : AdtClass → ℕ) (c : AdtClass) → IsTop f c → Lone c (f c) (table f)
IsTop-Lone f lru_class (pos, top) = inl (
  refl,
  refl,
  (
    top priority_queue_class refl,
    (top ttl_store_class refl, (top fifo_class refl, (top ring_buffer_class refl, tt))),
  ),
)
IsTop-Lone f priority_queue_class (pos, top) = inr (
  top lru_class refl,
  inl (
    refl,
    refl,
    (top ttl_store_class refl, (top fifo_class refl, (top ring_buffer_class refl, tt))),
  ),
)
IsTop-Lone f ttl_store_class (pos, top) = inr (
  top lru_class refl,
  inr (
    top priority_queue_class refl,
    inl (refl, refl, (top fifo_class refl, (top ring_buffer_class refl, tt))),
  ),
)
IsTop-Lone f fifo_class (pos, top) = inr (
  top lru_class refl,
  inr (
    top priority_queue_class refl,
    inr (top ttl_store_class refl, inl (refl, refl, (top ring_buffer_class refl, tt))),
  ),
)
IsTop-Lone f ring_buffer_class (pos, top) = inr (
  top lru_class refl,
  inr (
    top priority_queue_class refl,
    inr (top ttl_store_class refl, inr (top fifo_class refl, inl (refl, refl, tt))),
  ),
)

IsTop-found :
    (f : AdtClass → ℕ) (c : AdtClass)
    → IsTop f c
    → sole (winners (best_of (scored (table f))) (scored (table f))) ≡ some c
IsTop-found f c top =
    let wins =
      Lone-wins c (f c) (scored (table f)) top.0
        (Lone-scored c (f c) (table f) top.0 (IsTop-Lone f c top)) in
    rw (wins.0, wins.1) refl

found-IsTop :
    (f : AdtClass → ℕ) (c : AdtClass)
    → sole (winners (best_of (scored (table f))) (scored (table f))) ≡ some c
    → IsTop f c
found-IsTop f c h =
    let xs = scored (table f) in
    let n = best_of xs in
    let one : winners n xs ≡ c ∷ [] = sole-some c (winners n xs) h in
    let won : (f c ≡ n) × (0 < n) =
      winners-first f n c [] xs one (scored-positive f supported_classes) in
    let bounds : All {A = AdtClass × ℕ} (λ x. x.1 ≤ n) xs = best_of-bounds xs n (omega arith) in
    (
      ground (arith, won.0, won.1),
      below f c n won.0 won.1
          (scored-All (λ x. (x.1 < n) ⊎ (x.0 ≡ c)) (table f) (winners-one n c xs one bounds)),
    )

module _ (lower : String → String) (has_word : (haystack needle : String) → Bool) where
  -- A type is named exactly where its score, two for each keyword in the text and one for each method
  -- token among the names, is positive and above that of each other type.
  pub classify-IsTop :
      (spec : String) (mods : List String) (c : AdtClass)
      → (classify lower has_word spec mods ≡ some c) ↔ IsTop (score lower has_word spec mods) c
  unfolding classify
  classify-IsTop spec mods c = (
    found-IsTop (score lower has_word spec mods) c,
    IsTop-found (score lower has_word spec mods) c,
  )
