-- ===== src/Sessions/Reorder.antt =====
-- app/sessions.py: `reorder`.
use voice_2_text.Prelude.{
  ℕ, ◌+◌, ◌==◌, Bool, true, false, not, ◌&&◌, Option, none, some, List, [], ◌∷◌, map, select,
  update_where, sort_by, if◌then◌else◌,
}
use voice_2_text.Http.{Result, ok, HttpError, require, commit, ◌>>=◌, ◌>>◌}
use voice_2_text.Database.{AudioClip, LiveBlock, World, is_file, clip_of_job}
use voice_2_text.Auth.{Account}
use voice_2_text.Sessions.{editable}

unfoldable pub member : ℕ → List ℕ → Bool
member x [] = false
member x (y ∷ ys) = if y == x then true else member x ys

-- `len(set(xs)) == len(xs)`
unfoldable pub all_different : List ℕ → Bool
all_different [] = true
all_different (x ∷ xs) = let rest = all_different xs in not (member x xs) && rest

unfoldable pub subset : List ℕ → List ℕ → Bool
subset [] ys = true
subset (x ∷ xs) ys = let rest = subset xs ys in member x ys && rest

-- `positions.get(cid, 0)`: the place in the list from 1, or 0
unfoldable pub position_of : List ℕ → ℕ → ℕ
position_of [] cid = 0
position_of (x ∷ xs) cid =
    let rest = position_of xs cid in if x == cid then 1 else if rest == 0 then 0 else rest + 1

unfoldable pub clip_position : List ℕ → LiveBlock → ℕ
clip_position ids b = elim b.clip_id [ none ↦ 0 | some cid ↦ position_of ids cid ]

abbrev pub file_block : ℕ → LiveBlock → Bool
file_block job_id b = b.job_id == job_id && is_file b.source

-- The loop that hands the slots out, one to each block in turn: `(block.id, slot)`.
unfoldable pub deal : List ℕ → List LiveBlock → List (ℕ × ℕ)
deal [] bs = []
deal (s ∷ ss) [] = []
deal (s ∷ ss) (b ∷ bs) = (b.id, s) ∷ deal ss bs

unfoldable pub reseated : List (ℕ × ℕ) → LiveBlock → LiveBlock
reseated [] b = b
reseated ((i, s) ∷ r) b =
    let rest = reseated r b in if i == b.id then record b { seq = s } else rest

unfoldable pub seats : ℕ → List ℕ → List LiveBlock → List (ℕ × ℕ)
seats job_id ids all =
    let blocks = sort_by (λ b. b.seq) (select (file_block job_id) all) in
    deal (sort_by (λ s. s) (map (λ b. b.seq) blocks)) (sort_by (clip_position ids) blocks)

unfoldable pub placed : List ℕ → AudioClip → AudioClip
placed ids c = record c { position = position_of ids c.id }

unfoldable pub reorder_body : Option Account → ℕ → List ℕ → World → Result (Unit {0} × World)
reorder_body user job_id ids w = do
  job ← editable w.jobs user job_id
  let clips = map (λ c. c.id) (select (clip_of_job job_id) w.clips)
  require (all_different ids && (subset ids clips && subset clips ids)) HttpError.bad_request
  ok (
    tt,
    record w {
      clips = update_where (clip_of_job job_id) (placed ids) w.clips;
      blocks = update_where (file_block job_id) (reseated (seats job_id ids w.blocks)) w.blocks;
    },
  )

unfoldable pub reorder : Option Account → ℕ → List ℕ → World → Result (Unit {0}) × World
reorder user job_id ids w = commit w (reorder_body user job_id ids w)
