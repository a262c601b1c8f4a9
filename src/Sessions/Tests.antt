-- ===== src/Sessions/Tests.antt =====
-- Transcripts on small examples; a time is a number.
use jaros_code.Prelude.{
  ℕ, ◌≤◌, String, ◌≡◌, refl, true, false, List, [], ◌∷◌, ◌++◌, ◌⊎◌, arith, length, some, All,
}
use jaros_code.Text.{first_n, strip, lstrip, rstrip, is_space}
use jaros_code.JsonLines.{slice_last}
use jaros_code.Exec.{Result, ok}
use jaros_code.Sessions.{Turn, condense, compact_session, summarize_turns}
use jaros_code.Sessions.Bounds.{IsShort, condense-IsShort}
use jaros_code.Sessions.Compacting.{summary, compact_session_lem}

abbrev says : String → Turn ℕ
says text = record { role = some "user"; text = some text; ts = 1 }

abbrev three : List (Turn ℕ)
three = says "a" ∷ says "b" ∷ says "c" ∷ []

abbrev answers : String → Result String
answers prompt = ok " two turns "

abbrev summarised : String → Turn ℕ
summarised text = record { role = some "summary"; text = some text; ts = 9 }

folds_two : compact_session answers 1 9 three ≡ (true, summarised "two turns" ∷ says "c" ∷ [])
unfolding compact_session summarize_turns slice_last first_n strip lstrip rstrip is_space
folds_two = refl

-- One turn more than is kept: as many turns as before.
shrinks_nothing :
    compact_session answers 2 9 three ≡ (true, summarised "two turns" ∷ says "b" ∷ says "c" ∷ [])
unfolding compact_session summarize_turns slice_last first_n strip lstrip rstrip is_space
shrinks_nothing = refl

-- At a keep of 0 the whole transcript stays behind its summary.
keeps_all : compact_session answers 0 9 three ≡ (true, summarised "two turns" ∷ three)
unfolding compact_session summarize_turns slice_last first_n strip lstrip rstrip is_space
keeps_all = refl

compact_session_lem_example :
    ((length three ≤ 1) × (compact_session answers 1 9 three ≡ (false, three)))
    ⊎ ((old : List (Turn ℕ)) × ((kept : List (Turn ℕ)) × (old ++ kept ≡ three)
          × (length kept ≡ 1)
          × (1 ≤ length old)
          × (compact_session answers 1 9 three ≡ (true, summary answers 1 9 old ∷ kept))))
compact_session_lem_example = compact_session_lem answers 1 9 three (ground arith)

condense-IsShort_example :
    (length (condense answers 2 300 three) ≤ 3)
    × All (λ e. IsShort 300 e) (condense answers 2 300 three)
condense-IsShort_example = condense-IsShort answers 2 300 three (ground arith)
