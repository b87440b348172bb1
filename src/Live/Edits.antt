-- ===== src/Live/Edits.antt =====
-- app/live.py: what the writes to the blocks of a session change.
use voice_2_text.Prelude.{
  ℕ, ◌≡◌, ◌≢◌, ◌⊎◌, inl, inr, refl, Bool-cases, Bool, true, false, Option, none, some, [], ◌∷◌,
  ◌++◌, Text, All-of_each, All-map, Distinct, All₂, All₂-refl, All₂-update, only_row, find_first,
  update_where, delete_where, arith, strip, find_first_holds, find_first-update, ◌∙◌,
}
use voice_2_text.Http.{ok, commit-ok}
use voice_2_text.Database.{JobStatus, Job, Source, BlockState, LiveBlock, World}
use voice_2_text.Auth.{Account, owned_job}
use voice_2_text.Live.{
  by_id, new_block, _append_block, same_block, block_of, clip_block_of, resolved,
  resolve_file_block, rewritten, edit_block_body, edit_block, delete_block_body,
}

pub edit_block_body-eq-ok :
    (w : World) (user : Option Account) (job_id block_id : ℕ) (text : Text) (r : LiveBlock)
    (t : World)
    → edit_block_body w user job_id block_id text ≡ ok (r, t)
    → (job : Job) × (b : LiveBlock) × (owned_job w.jobs user job_id ≡ ok job)
      × (job.status ≡ JobStatus.opened)
      × (find_first (block_of job_id block_id) w.blocks ≡ some b)
      × (b.state ≡ BlockState.done)
      × (r ≡ rewritten text b)
      × (t ≡ record w { blocks = update_where (same_block b) (rewritten text) w.blocks })
unfolding edit_block_body
edit_block_body-eq-ok w user job_id block_id text r t h = ground arith

pub delete_block_body-eq-ok :
    (w : World) (user : Option Account) (job_id block_id : ℕ) (r : ℕ) (t : World)
    → delete_block_body w user job_id block_id ≡ ok (r, t)
    → (job : Job) × (b : LiveBlock) × (owned_job w.jobs user job_id ≡ ok job)
      × (find_first (block_of job_id block_id) w.blocks ≡ some b)
      × (t ≡ record w { blocks = delete_where (same_block b) w.blocks })
unfolding delete_block_body
delete_block_body-eq-ok w user job_id block_id r t h = ground arith

pub resolve_file_block_cases :
    (w : World) (job_id clip_id : ℕ) (text : Text) (ms : ℕ) (failed : Bool)
    → (resolve_file_block w job_id clip_id text ms failed ≡ w)
      ⊎ ((b : LiveBlock) × (find_first (clip_block_of job_id clip_id) w.blocks ≡ some b)
          × (b.edited ≡ false)
          × (resolve_file_block w job_id clip_id text ms failed ≡ record w {
            blocks = update_where (same_block b) (resolved text ms failed) w.blocks;
          }))
unfolding resolve_file_block
resolve_file_block_cases w job_id clip_id text ms failed =
    go (find_first (clip_block_of job_id clip_id) w.blocks) refl
  where
    go :
        (o : Option LiveBlock)
        → find_first (clip_block_of job_id clip_id) w.blocks ≡ o
        → (resolve_file_block w job_id clip_id text ms failed ≡ w)
          ⊎ ((b : LiveBlock) × (find_first (clip_block_of job_id clip_id) w.blocks ≡ some b)
              × (b.edited ≡ false)
              × (resolve_file_block w job_id clip_id text ms failed ≡ record w {
                blocks = update_where (same_block b) (resolved text ms failed) w.blocks;
              }))
    go none e = inl (ground arith)
    go (some b) e = elim (Bool-cases b.edited) [
      | inl t ↦ inl (ground arith)
      | inr f ↦ inr (b, e, f, ground arith)
    ]

-- A block is appended to an open session only, and behind all others in the table.
pub _append_block-eq-some :
    (w : World) (id job_id : ℕ) (text : Text) (source : Source) (ms : ℕ) (state : BlockState)
    (label : Option Text) (clip_id : Option ℕ) (b : LiveBlock) (t : World)
    → _append_block w id job_id text source ms state label clip_id ≡ (some b, t)
    → (job : Job) × (find_first (by_id job_id) w.jobs ≡ some job)
      × (job.status ≡ JobStatus.opened)
      × (b ≡ new_block w id job_id text source ms state label clip_id)
      × (t ≡ record w { blocks = w.blocks ++ b ∷ [] })
unfolding _append_block
_append_block-eq-some w id job_id text source ms state label clip_id b t h = ground arith

-- The blocks of two tables, in turn: an edited one is the same in both.
abbrev pub KeepsEdited : LiveBlock → LiveBlock → Type 0
KeepsEdited b c = b.edited ≡ true → c ≡ b

-- Where no two blocks have the same id, a transcription that comes late writes over no block that
-- the user has edited.
pub resolve_file_block-KeepsEdited :
    (w : World) (job_id clip_id : ℕ) (text : Text) (ms : ℕ) (failed : Bool)
    → Distinct (λ b. b.id) w.blocks
    → All₂ KeepsEdited w.blocks (resolve_file_block w job_id clip_id text ms failed).blocks
resolve_file_block-KeepsEdited w job_id clip_id text ms failed d =
    elim (resolve_file_block_cases w job_id clip_id text ms failed) [
      | inl e ↦ rw e (All₂-refl KeepsEdited (λ b _. refl) w.blocks)
      | inr (b, found_b, fresh, e) ↦ rw e (
          All₂-update KeepsEdited (same_block b) (resolved text ms failed) w.blocks (λ c _. refl)
            (All-map w.blocks
              (λ c (only : c.id ≡ b.id → c ≡ b) same yes_edited.
                ground (arith, only (ground arith)))
              (only_row (λ c. c.id) (clip_block_of job_id clip_id) w.blocks b d found_b)))
    ]

-- What a write to the block `block_id` of a session leaves alone: every other block, and the keys
-- and the place of that one.
abbrev pub SameBut : ℕ → LiveBlock → LiveBlock → Type 0
SameBut block_id b c =
    (b.id ≢ block_id → c ≡ b)
    × (c.id ≡ b.id)
    × (c.job_id ≡ b.job_id)
    × (c.seq ≡ b.seq)
    × (c.source ≡ b.source)
    × (c.clip_id ≡ b.clip_id)

-- A block is edited only by the approved owner of its session, while that is open and after the
-- block is transcribed; the reply is the block with the stripped text, and no other block changes.
pub edit_block-ok :
    (w : World) (user : Option Account) (job_id block_id : ℕ) (text : Text) (r : LiveBlock)
    → (edit_block w user job_id block_id text).0 ≡ ok r
    → (job : Job) × (b : LiveBlock) × (owned_job w.jobs user job_id ≡ ok job)
      × (job.status ≡ JobStatus.opened)
      × (b.id ≡ block_id)
      × (b.job_id ≡ job_id)
      × (b.state ≡ BlockState.done)
      × (r ≡ record b { text = strip text; edited = true })
      × All₂ (SameBut block_id) w.blocks (edit_block w user job_id block_id text).1.blocks
unfolding edit_block
edit_block-ok w user job_id block_id text r h =
    let body = edit_block_body w user job_id block_id text in
    let t = (edit_block w user job_id block_id text).1 in
    let x = edit_block_body-eq-ok w user job_id block_id text r t (commit-ok w body r h) in
    let here = find_first_holds (block_of job_id block_id) w.blocks x.1 x.4 in
    (
      x.0,
      x.1,
      x.2,
      x.3,
      ground arith,
      ground arith,
      x.5,
      x.6,
      rw x.7 (
          All₂-update (SameBut block_id) (same_block x.1) (rewritten text) w.blocks
            (λ c. (λ _. refl, refl, refl, refl, refl, refl))
            (All-of_each _ w.blocks (λ c (s : same_block x.1 c ≡ true).
              (λ n. absurd (n (ground arith)), refl, refl, refl, refl, refl)))),
    )

-- Where no two blocks have the same id, the late result of the transcription of a clip changes
-- nothing after an edit of the block that it would write to.
pub resolve_file_block-edit_block :
    (w : World) (user : Option Account) (job_id block_id clip_id : ℕ) (text late : Text) (ms : ℕ)
    (failed : Bool) {r : LiveBlock}
    → Distinct (λ b. b.id) w.blocks
    → (edit_block w user job_id block_id text).0 ≡ ok r
    → find_first (clip_block_of job_id clip_id) w.blocks
      ≡ find_first (block_of job_id block_id) w.blocks
    → let t = (edit_block w user job_id block_id text).1 in
      resolve_file_block t job_id clip_id late ms failed ≡ t
unfolding edit_block resolve_file_block rewritten
resolve_file_block-edit_block w user job_id block_id clip_id text late ms failed {r} d h same =
    let body = edit_block_body w user job_id block_id text in
    let t = (edit_block w user job_id block_id text).1 in
    let x = edit_block_body-eq-ok w user job_id block_id text r t (commit-ok w body r h) in
    rw x.7 (
      ground (
        arith,
        find_first-update (clip_block_of job_id clip_id) (same_block x.1) (rewritten text) w.blocks
            x.1 (λ c. refl) (same ∙ x.4),
      ))
