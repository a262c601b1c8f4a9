-- ===== src/Sessions/Compacting.antt =====
-- What `compact_session` leaves of a transcript.
use jaros_code.Prelude.{
  ℕ, zero, suc, ◌-◌, ◌≤◌, String, ◌≡◌, refl, true, false, List, ◌∷◌, ◌++◌, ◌⊎◌, inl, inr, arith,
  length, length-drop, length-take, take-append-drop, take, drop, leb, Bool-cases, some,
}
use jaros_code.JsonLines.{slice_last}
use jaros_code.Exec.{Result}
use jaros_code.Sessions.{Turn, summarize_turns, compact_session}

slice_last-drop :
    {A : Type 0} (n : ℕ) (xs : List A) → 1 ≤ n → slice_last n xs ≡ drop (length xs - n) xs
unfolding slice_last
slice_last-drop zero xs h = ground (arith, h)
slice_last-drop (suc n) xs h = refl

module _ {T : Type 0} (complete : String → Result String) (keep : ℕ) (now : T) where
  abbrev pub summary : List (Turn T) → Turn T
  summary old = record {
    role = some "summary";
    text = some (summarize_turns complete old);
    ts = now;
  }

  -- compact_session with a positive keep: a transcript of at most keep turns is left as it is, and
  -- that is reported; of any other the last keep turns stay as they are, in order, behind one
  -- summary of all turns before them.
  pub compact_session_lem :
      (turns : List (Turn T))
      → 1 ≤ keep
      → ((length turns ≤ keep) × (compact_session complete keep now turns ≡ (false, turns)))
        ⊎ ((old : List (Turn T)) × ((kept : List (Turn T)) × (old ++ kept ≡ turns)
              × (length kept ≡ keep)
              × (1 ≤ length old)
              × (compact_session complete keep now turns ≡ (true, summary old ∷ kept))))
  unfolding compact_session
  compact_session_lem turns h = elim (Bool-cases (leb (length turns) keep)) [
    | inl short ↦ inl (ground (arith, short), rw short refl)
    | inr long ↦
        let over : suc keep ≤ length turns = ground (arith, long) in
        let n = length turns - keep in
        inr (
          take n turns,
          (
            drop n turns,
            take-append-drop n turns,
            omega (arith, over, length-drop n turns),
            omega (arith, over, length-take n turns),
            rw (long, slice_last-drop keep turns h) refl,
          ),
        )
  ]
