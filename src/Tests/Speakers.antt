-- ===== src/Tests/Speakers.antt =====
-- The theorem on app/diarize.py, at two turns.
use voice_2_text.Prelude.{ℕ, none, List, [], ◌∷◌}
use voice_2_text.Speakers.{Turn, Spoken}

abbrev turn_at : ℕ → ℕ → ℕ → Turn
turn_at start end speaker = record { start = start; end = end; speaker = speaker }

abbrev segment_at : ℕ → ℕ → Spoken
segment_at start end = record { start = start; end = end; speaker = none }

abbrev two : List Spoken
two = segment_at 0 900 ∷ segment_at 900 2000 ∷ []
