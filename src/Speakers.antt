-- ===== src/Speakers.antt =====
-- app/diarize.py: `assign_speakers`. Times are in milliseconds, a speaker is a number.
use voice_2_text.Prelude.{
  ℕ, suc, ◌-◌, ◌==◌, ltb, max, min, ◌≡◌, ◌≤◌, ◌<◌, true, ◌&&◌, Option, none, some, List, [], ◌∷◌,
  map, All, exists, if◌then◌else◌,
}

pub record Turn : Type 0 where
  pub start : ℕ
  pub end : ℕ
  pub speaker : ℕ

-- a segment of the transcript, as far as the code reads and writes it
pub record Spoken : Type 0 where
  pub start : ℕ
  pub end : ℕ
  pub speaker : Option ℕ

-- A negative overlap is 0 here: the code keeps only those above 0.
abbrev pub overlap : Spoken → Turn → ℕ
overlap seg turn = min seg.end turn.end - max seg.start turn.start

-- the inner loop, with `best` and `best_overlap`
unfoldable pub best_speaker : Spoken → Option ℕ → ℕ → List Turn → Option ℕ
best_speaker seg best best_overlap [] = best
best_speaker seg best best_overlap (t ∷ ts) =
    let better = ltb best_overlap (overlap seg t) in
    best_speaker seg (if better then some t.speaker else best)
      (if better then overlap seg t else best_overlap) ts

unfoldable pub labeled : List Turn → Spoken → Spoken
labeled turns seg = record seg { speaker = best_speaker seg none 0 turns }

unfoldable pub count_speakers : List Turn → ℕ
count_speakers [] = 0
count_speakers (t ∷ ts) =
    let rest = count_speakers ts in
    if exists (λ u. u.speaker == t.speaker) ts then rest else suc rest

-- The turns are empty: the segments stay as they are.
unfoldable pub assign_speakers : List Spoken → List Turn → ℕ × List Spoken
assign_speakers segments [] = (0, segments)
assign_speakers segments (t ∷ ts) = (count_speakers (t ∷ ts), map (labeled (t ∷ ts)) segments)

-- The result of the loop is the speaker of a turn with the largest overlap, or none where there is
-- no overlap at all.
abbrev pub IsBest : Spoken → List Turn → Option ℕ → Type 0
IsBest seg turns none = All (λ t. overlap seg t ≡ 0) turns
IsBest seg turns (some s) =
    (o : ℕ) × (0 < o)
    × (exists (λ t. t.speaker == s && overlap seg t == o) turns ≡ true)
    × All (λ t. overlap seg t ≤ o) turns

-- A segment, before and after the call, with the turns given.
abbrev pub IsLabeled : List Turn → Spoken → Spoken → Type 0
IsLabeled turns a b = (b.start ≡ a.start) × (b.end ≡ a.end) × IsBest a turns b.speaker
