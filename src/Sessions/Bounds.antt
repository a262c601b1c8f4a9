-- ===== src/Sessions/Bounds.antt =====
-- The slice of a transcript that the router sees is bounded.
use jaros_code.Prelude.{
  ℕ, zero, suc, ◌+◌, ◌-◌, ◌≤◌, String, ◌≡◌, refl, List, [], ◌∷◌, ◌⊎◌, inl, inr, arith, map, length,
  length-drop, take, leb, ltb, All, Bool-cases,
}
use jaros_code.Text.{is_empty, strip, size, first_n, size-append, size-first_n}
use jaros_code.JsonLines.{slice_last}
use jaros_code.Exec.{Result, ok, err}
use jaros_code.Sessions.{
  Turn, Entry, max_turns, max_summary_chars, shortened, entry_of, recent, fallback_truncate,
  summary_of, summarize_turns, condense, text_of,
}

size-shortened : (n : ℕ) (s : String) → size (shortened n s) ≤ n + 3
unfolding shortened size
size-shortened n s = elim (Bool-cases (ltb n (size s))) [
  | inl long ↦ rw (long, size-append (first_n n s) "...") (omega (arith, size-first_n n s))
  | inr short ↦ rw short (ground arith)
]

length-map : {A B : Type 0} (f : A → B) (xs : List A) → length (map f xs) ≡ length xs
length-map f [] = refl
length-map f (x ∷ xs) = omega (arith, length-map f xs)

length-slice_last : {A : Type 0} (n : ℕ) (xs : List A) → 1 ≤ n → length (slice_last n xs) ≤ n
unfolding slice_last
length-slice_last zero xs h = ground (arith, h)
length-slice_last (suc n) xs h = omega (arith, length-drop (length xs - suc n) xs)

-- A text of the slice is a turn's, shortened, or the summary.
abbrev pub IsShort : ℕ → Entry → Type 0
IsShort max_chars e = (size e.text ≤ max_chars + 3) ⊎ (size e.text ≤ max_summary_chars)

module _ {T : Type 0} where
  size-summary_of :
      (turns : List (Turn T)) (r : Result String) → size (summary_of turns r) ≤ max_summary_chars
  unfolding fallback_truncate
  size-summary_of turns (err e) = size-first_n max_summary_chars _
  size-summary_of turns (ok text) = elim (Bool-cases (is_empty (strip text))) [
    | inl blank ↦ rw blank (size-first_n max_summary_chars _)
    | inr full ↦ rw full (size-first_n max_summary_chars (strip text))
  ]

  size-summarize_turns :
      (complete : String → Result String) (turns : List (Turn T))
      → size (summarize_turns complete turns) ≤ max_summary_chars
  unfolding summarize_turns size
  size-summarize_turns complete [] = ground arith
  size-summarize_turns complete (t ∷ ts) = size-summary_of (t ∷ ts) _

  entries-IsShort :
      (max_chars : ℕ) (turns : List (Turn T))
      → All (λ e. IsShort max_chars e) (map (entry_of max_chars) turns)
  entries-IsShort max_chars [] = tt
  entries-IsShort max_chars (t ∷ ts) =
      (inl (size-shortened max_chars (text_of t)), entries-IsShort max_chars ts)

  recent-IsShort :
      (keep max_chars : ℕ) (turns : List (Turn T))
      → 1 ≤ keep
      → (length (recent keep max_chars turns) ≤ keep)
        × All (λ e. IsShort max_chars e) (recent keep max_chars turns)
  unfolding recent
  recent-IsShort keep max_chars turns h = (
    omega (
      arith,
      length-map (entry_of max_chars) (slice_last keep turns),
      length-slice_last keep turns h,
    ),
    entries-IsShort max_chars (slice_last keep turns),
  )

  -- Whatever the transcript and the model's answer are, condense with a positive keep gives at most
  -- keep + 1 entries, and each text is within the bound of a shortened turn or of a summary.
  pub condense-IsShort :
      (complete : String → Result String) (keep max_chars : ℕ) (turns : List (Turn T))
      → 1 ≤ keep
      → (length (condense complete keep max_chars turns) ≤ keep + 1)
        × All (λ e. IsShort max_chars e) (condense complete keep max_chars turns)
  unfolding condense
  condense-IsShort complete keep max_chars turns h =
      let kept = recent-IsShort keep max_chars turns h in
      elim (Bool-cases (leb (length turns) max_turns)) [
        | inl within ↦ rw within (omega (arith, kept.0), kept.1)
        | inr over ↦ rw over (
          omega (arith, kept.0),
          (inr (size-summarize_turns complete (take (length turns - keep) turns)), kept.1),
        )
      ]
