-- ===== src/Agent/Window.antt =====
-- qc/context_builder.py: the event in focus and the window of evidence around its turns. The texts of the
-- prompts are left out.
use servicecheck.Base.{
  ℕ, ◌+◌, ◌-◌, min, max, String, Bool, Option, none, some, List, [], ◌∷◌, if◌then◌else◌, same,
  length, take, drop, find, or_else,
}
use servicecheck.Quality.Models.{TranscriptTurn, QualityEvent, QualityReport}

abbrev pub is_ambiguous : QualityEvent → Bool
is_ambiguous e = e.ambiguous

-- The first event, if any.
abbrev pub first_event : List QualityEvent → Option QualityEvent
first_event [] = none
first_event (e ∷ es) = some e

-- An ambiguous event first, else the first.
unfoldable pub select_focus_event : QualityReport → Option QualityEvent
select_focus_event report = or_else (find is_ambiguous report.events) (first_event report.events)

-- `{turn.turnId: i for i, turn in enumerate(transcript)}`: of equal ids the last counts.
abbrev pub index_by_id : ℕ → String → List TranscriptTurn → Option ℕ
index_by_id i id [] = none
index_by_id i id (t ∷ ts) =
    or_else (index_by_id (i + 1) id ts) (if same t.turn_id id then some i else none)

abbrev pub put_index : Option ℕ → List ℕ → List ℕ
put_index none is = is
put_index (some i) is = i ∷ is

abbrev pub indices : List TranscriptTurn → List String → List ℕ
indices transcript [] = []
indices transcript (id ∷ ids) = put_index (index_by_id 0 id transcript) (indices transcript ids)

abbrev pub least : ℕ → List ℕ → ℕ
least m [] = m
least m (i ∷ is) = least (min m i) is

abbrev pub greatest : ℕ → List ℕ → ℕ
greatest m [] = m
greatest m (i ∷ is) = greatest (max m i) is

-- `transcript[start:end]`; with no focus in the transcript, its first five turns.
abbrev pub window_at : List TranscriptTurn → ℕ → List ℕ → List TranscriptTurn
window_at transcript radius [] = take 5 transcript
window_at transcript radius (i ∷ is) =
    let start = least i is - radius in
    take (min (length transcript) (greatest i is + radius + 1) - start) (drop start transcript)

unfoldable pub build_evidence_window : List TranscriptTurn → List String → ℕ → List TranscriptTurn
build_evidence_window transcript focus radius =
    window_at transcript radius (indices transcript focus)
