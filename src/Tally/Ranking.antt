-- ===== src/Tally/Ranking.antt =====
-- `best_model_for` and `ranked_models_for` of harness/model_tally.py.
use mathlib.Core.Path.{subst}
use mathlib.Core.List.Permᴰ
use mathlib.Core.List.{Permᴰ}
use Prim.Native.String.{[] as nil, ◌∷◌ as cons}
use jaros_code.Prelude.{
  String, ◌≡◌, refl, ap, Bool, true, false, Option, none, some, List, [], ◌∷◌, map, arith, inl, inr,
  Bool-cases, All, All-of,
}
use jaros_code.Tally.{
  Cell, CoverageTally, text_leq, key_leq, insert_cell, sort_cells, candidates, first_id,
  best_model_for, ranked_models_for,
}

text_leq_total : (s t : String) → text_leq s t ≡ false → text_leq t s ≡ true
unfolding text_leq
text_leq_total nil t h = absurd (cc)
text_leq_total (cons c s) nil h = refl
text_leq_total (cons c s) (cons d t) h = grind (arith, text_leq_total s t)

module _ {Score : Type 0} (gt : Score → Score → Bool) where
  -- `>` on scores that are numbers.
  pub record IsOrder : Type 0 where
    pub asymmetric : (a b : Score) → gt a b ≡ true → gt b a ≡ false
    pub transitive : (a b c : Score) → gt b a ≡ false → gt c b ≡ false → gt c a ≡ false

  key_leq_total :
      (t : CoverageTally Score) (a b : Cell Score)
      → key_leq gt t a b ≡ false
      → key_leq gt t b a ≡ true
  unfolding key_leq
  key_leq_total t a b h = grind (arith, text_leq_total a.model_id b.model_id)

  -- A score is not above another's.
  abbrev pub IsAtMost : Cell Score → Cell Score → Type 0
  IsAtMost best c = gt c.score best.score ≡ false

  key_leq-IsAtMost :
      (t : CoverageTally Score) (a b : Cell Score)
      → IsOrder
      → key_leq gt t a b ≡ true
      → IsAtMost a b
  unfolding key_leq
  key_leq-IsAtMost t a b order h = grind (arith, order.asymmetric a.score b.score)

  -- A cell with nothing better behind it, at every place of a list.
  abbrev pub IsRanked : CoverageTally Score → List (Cell Score) → Type 0
  IsRanked t [] = Unit
  IsRanked t (c ∷ cs) = All (λ d. gt d.score c.score ≡ false) cs × IsRanked t cs

  All-insert_cell :
      (P : Cell Score → Type 0) (t : CoverageTally Score) (c : Cell Score) (cs : List (Cell Score))
      → P c
      → All P cs
      → All P (insert_cell gt t c cs)
  unfolding insert_cell
  All-insert_cell P t c [] h k = (h, tt)
  All-insert_cell P t c (d ∷ ds) h k = elim (Bool-cases (key_leq gt t c d)) [
    | inl less ↦ rw less (h, k)
    | inr more ↦ rw more (k.0, All-insert_cell P t c ds h k.1)
  ]

  insert_cell-IsRanked :
      (t : CoverageTally Score) (c : Cell Score) (cs : List (Cell Score))
      → IsOrder
      → IsRanked t cs
      → IsRanked t (insert_cell gt t c cs)
  unfolding insert_cell
  insert_cell-IsRanked t c [] order h = (tt, tt)
  insert_cell-IsRanked t c (d ∷ ds) order h = elim (Bool-cases (key_leq gt t c d)) [
    | inl less ↦
        let below = key_leq-IsAtMost t c d order less in
        rw less (
          (
            below,
            All-of (λ e. gt e.score c.score ≡ false) (λ e. gt e.score d.score ≡ false)
                (λ e k. order.transitive c.score d.score e.score below k) ds h.0,
          ),
          h,
        )
    | inr more ↦ rw more (
      All-insert_cell (λ e. gt e.score d.score ≡ false) t c ds
          (key_leq-IsAtMost t d c order (key_leq_total t c d more)) h.0,
      insert_cell-IsRanked t c ds order h.1,
    )
  ]

  sort_cells-IsRanked :
      (t : CoverageTally Score) (cs : List (Cell Score)) → IsOrder → IsRanked t (sort_cells gt t cs)
  unfolding sort_cells
  sort_cells-IsRanked t [] order = tt
  sort_cells-IsRanked t (c ∷ cs) order =
      insert_cell-IsRanked t c (sort_cells gt t cs) order (sort_cells-IsRanked t cs order)

  insert_cell-Permᴰ :
      (t : CoverageTally Score) (c : Cell Score) (cs : List (Cell Score))
      → Permᴰ (insert_cell gt t c cs) (c ∷ cs)
  unfolding insert_cell
  insert_cell-Permᴰ t c [] = Permᴰ.refl (c ∷ [])
  insert_cell-Permᴰ t c (d ∷ ds) = elim (Bool-cases (key_leq gt t c d)) [
    | inl less ↦ rw less (Permᴰ.refl (c ∷ d ∷ ds))
    | inr more ↦
        rw more (Permᴰ.trans (Permᴰ.cons refl (insert_cell-Permᴰ t c ds)) (Permᴰ.swap refl refl))
  ]

  sort_cells-Permᴰ :
      (t : CoverageTally Score) (cs : List (Cell Score)) → Permᴰ (sort_cells gt t cs) cs
  unfolding sort_cells
  sort_cells-Permᴰ t [] = Permᴰ.refl []
  sort_cells-Permᴰ t (c ∷ cs) =
      Permᴰ.trans (insert_cell-Permᴰ t c (sort_cells gt t cs))
        (Permᴰ.cons refl (sort_cells-Permᴰ t cs))

  -- A best candidate, with the others behind it.
  pub record HasBest (t : CoverageTally Score) (name id : String) : Type 0 where
    pub best : Cell Score
    pub others : List (Cell Score)
    pub model : best.model_id ≡ id
    pub candidate : Permᴰ (best ∷ others) (candidates gt t name)
    pub top : All (λ c. gt c.score best.score ≡ false) others
    pub ranked : ranked_models_for gt t name ≡ id ∷ map (λ c. c.model_id) others

  abbrev pub IsBest : CoverageTally Score → String → Option String → Type 0
  IsBest t name none = (candidates gt t name ≡ []) × (ranked_models_for gt t name ≡ [])
  IsBest t name (some id) = HasBest t name id

  no_cells : (cs : List (Cell Score)) → Permᴰ [] cs → cs ≡ []
  no_cells [] p = refl
  no_cells (c ∷ cs) p = absurd (cc (Permᴰ.length-eq p))

  -- Where `>` orders the scores, `best_model_for` is no model exactly where the class has no cell; else it is the model of a cell
  -- of the class than which no other cell of the class has a higher score, and it is the first of
  -- `ranked_models_for`, which lists the models of all cells of the class.
  pub best_model_for-IsBest :
      (t : CoverageTally Score) (name : String) → IsOrder → IsBest t name (best_model_for gt t name)
  unfolding best_model_for ranked_models_for
  best_model_for-IsBest t name order = go (sort_cells gt t (candidates gt t name)) refl
    where
      go :
          (cs : List (Cell Score))
          → sort_cells gt t (candidates gt t name) ≡ cs
          → IsBest t name (first_id gt cs)
      go [] e = (
        no_cells (candidates gt t name) (
            subst (λ l. Permᴰ l (candidates gt t name)) e
              (sort_cells-Permᴰ t (candidates gt t name))),
        ap (map (λ c. c.model_id)) e,
      )
      go (c ∷ cs) e = record {
        best = c;
        others = cs;
        model = refl;
        candidate =
            subst (λ l. Permᴰ l (candidates gt t name)) e
              (sort_cells-Permᴰ t (candidates gt t name));
        top = (subst (IsRanked t) e (sort_cells-IsRanked t (candidates gt t name) order)).0;
        ranked = ap (map (λ c. c.model_id)) e;
      }
