-- ===== src/Sessions.antt =====
-- harness/session.py: the transcript of a conversation, the bounded slice of it that the router
-- sees (`Session.recent`, `condense`), and its compaction (`compact_session`). The summary of the
-- model is a parameter that may fail. A turn's role and text are texts or missing: a text that is
-- null, at which `compact_session` reports that it failed, is left out. Sessions on disk, the index
-- and forks are left out.
mod Bounds
mod Compacting
mod Tests
use jaros_code.Prelude.{
  ℕ, ◌+◌, ◌-◌, String, Bool, true, false, Option, none, some, List, [], ◌∷◌, ◌++◌, map, length,
  take, drop, last_n, ltb, leb, ◌==◌, if◌then◌else◌,
}
use jaros_code.Text.{◌<>◌, is_empty, strip, size, first_n}
use jaros_code.JsonLines.{slice_last}
use jaros_code.Exec.{Result, ok, err}

-- A turn as a dict; a missing key is none. `T` is the type of times.
pub record Turn (T : Type 0) : Type 0 where
  pub role : Option String
  pub text : Option String
  pub ts : T

-- An entry of the slice for the router
pub record Entry : Type 0 where
  pub role : String
  pub text : String

abbrev pub max_turns : ℕ
max_turns = 40

abbrev pub condense_keep : ℕ
condense_keep = 6

abbrev pub max_summary_chars : ℕ
max_summary_chars = 800

abbrev pub or_default : String → Option String → String
or_default default none = default
or_default default (some s) = s

unfoldable pub shortened : ℕ → String → String
shortened max_chars text =
    if ltb max_chars (size text) then first_n max_chars text <> "..." else text

abbrev prompt_start : String
prompt_start =
    "Summarize the following OLDER conversation turns into a short, factual paragraph that preserves task-relevant facts (names, decisions, files, values) a later turn might still need. Do not invent anything not stated. Be concise.\n\n"

module _ {T : Type 0} where
  abbrev pub text_of : Turn T → String
  text_of t = or_default "" t.text

  abbrev pub entry_of : ℕ → Turn T → Entry
  entry_of max_chars t = record {
    role = or_default "user" t.role;
    text = shortened max_chars (text_of t);
  }

  unfoldable pub recent : (cap max_chars : ℕ) → List (Turn T) → List Entry
  recent cap max_chars turns = map (entry_of max_chars) (slice_last cap turns)

  abbrev line : Turn T → String
  line t = or_default "user" t.role <> ": " <> text_of t

  abbrev joined : String → List (Turn T) → String
  joined separator [] = ""
  joined separator (t ∷ []) = line t
  joined separator (t ∷ u ∷ ts) = line t <> separator <> joined separator (u ∷ ts)

  -- `_fallback_truncate`
  unfoldable pub fallback_truncate : List (Turn T) → String
  fallback_truncate turns = first_n max_summary_chars (joined " | " turns)

  -- The model's answer, or the fallback where it failed or is blank.
  abbrev pub summary_of : List (Turn T) → Result String → String
  summary_of turns (err e) = fallback_truncate turns
  summary_of turns (ok text) =
      if is_empty (strip text)
      then fallback_truncate turns
      else first_n max_summary_chars (strip text)

  module _ (complete : String → Result String) where
    unfoldable pub summarize_turns : List (Turn T) → String
    summarize_turns [] = ""
    summarize_turns (t ∷ ts) =
        summary_of (t ∷ ts) (complete (prompt_start <> joined "\n" (t ∷ ts) <> "\n\nSummary:"))

    unfoldable pub condense : (keep max_chars : ℕ) → List (Turn T) → List Entry
    condense keep max_chars turns =
        if leb (length turns) max_turns
        then recent keep max_chars turns
        else record { role = "summary"; text = summarize_turns (take (length turns - keep) turns) }
          ∷ recent keep max_chars turns

    -- What `compact_session` leaves of the turns, and whether it says that it compacted them.
    -- `save_session` catches every exception of its writes, so it does not raise.
    unfoldable pub compact_session : (keep : ℕ) → T → List (Turn T) → Bool × List (Turn T)
    compact_session keep now turns = if leb (length turns) keep then (false, turns) else (
      true,
      record {
        role = some "summary";
        text = some (summarize_turns (take (length turns - keep) turns));
        ts = now;
      }
          ∷ slice_last keep turns,
    )
