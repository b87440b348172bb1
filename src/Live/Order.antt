-- ===== src/Live/Order.antt =====
-- app/live.py, app/db.py: the numbering of the blocks of a session.
use voice_2_text.Prelude.{
  ℕ, ◌≡◌, ◌≢◌, ◌<◌, ◌≤◌, refl, sym, Bool, true, false, Option, none, some, List, [], ◌∷◌, ◌++◌, map,
  Text, All, All-map, All-append, All-update, All-delete, select, delete_where, update_where,
  maximum, arith, find_first, if◌then◌else◌,
}
use voice_2_text.Http.{commit-keeps}
use voice_2_text.Database.{Source, BlockState, LiveBlock, World, of_job, next_block_seq}
use voice_2_text.Auth.{Account}
use voice_2_text.Live.Edits.{edit_block_body-eq-ok, delete_block_body-eq-ok}
use voice_2_text.Live.{
  new_block, _append_block, resolve_file_block, edit_block, edit_block_body, delete_block_body,
  delete_block, rewritten, resolved, same_block, clip_block_of,
}

-- No two blocks of one session have the same place.
abbrev pub DistinctSeqs : List LiveBlock → Type 0
DistinctSeqs [] = Unit
DistinctSeqs (b ∷ bs) = All (λ c. c.job_id ≡ b.job_id → c.seq ≢ b.seq) bs × DistinctSeqs bs

abbrev top : ℕ → List LiveBlock → ℕ
top job_id blocks = maximum (map (λ b. b.seq) (select (of_job job_id) blocks))

le-top :
    (job_id : ℕ) (blocks : List LiveBlock)
    → All (λ b. b.job_id ≡ job_id → b.seq ≤ top job_id blocks) blocks
unfolding select of_job
le-top job_id [] = tt
le-top job_id (b ∷ bs) = (
  λ e. ground arith,
  All-map bs (λ c (h : c.job_id ≡ job_id → c.seq ≤ top job_id bs) e. ground (arith, h e))
      (le-top job_id bs),
)

-- Every block of the session stands before the next place.
pub lt-next_block_seq :
    (blocks : List LiveBlock) (job_id : ℕ)
    → All (λ b. b.job_id ≡ job_id → b.seq < next_block_seq blocks job_id) blocks
unfolding next_block_seq
lt-next_block_seq blocks job_id =
    All-map blocks (λ c (h : c.job_id ≡ job_id → c.seq ≤ top job_id blocks) e. omega (arith, h e))
      (le-top job_id blocks)

append-DistinctSeqs :
    (bs : List LiveBlock) (b : LiveBlock)
    → DistinctSeqs bs
    → All (λ c. c.job_id ≡ b.job_id → c.seq < b.seq) bs
    → DistinctSeqs (bs ++ b ∷ [])
append-DistinctSeqs [] b d h = (tt, tt)
append-DistinctSeqs (c ∷ bs) b d h = (
  All-append (λ a. a.job_id ≡ c.job_id → a.seq ≢ c.seq) bs (b ∷ []) d.0
      ((λ e. omega (arith, h.0 (sym e))), tt),
  append-DistinctSeqs bs b d.1 h.1,
)

-- Where no two blocks of a session have the same place, appending a block keeps it so.
pub _append_block-DistinctSeqs :
    (w : World) (id job_id : ℕ) (text : Text) (source : Source) (ms : ℕ) (state : BlockState)
    (label : Option Text) (clip_id : Option ℕ)
    → DistinctSeqs w.blocks
    → DistinctSeqs (_append_block w id job_id text source ms state label clip_id).1.blocks
unfolding _append_block new_block
_append_block-DistinctSeqs w id job_id text source ms state label clip_id d = ground (
  arith,
  append-DistinctSeqs w.blocks (new_block w id job_id text source ms state label clip_id) d
      (lt-next_block_seq w.blocks job_id),
)

update-DistinctSeqs :
    (p : LiveBlock → Bool) (f : LiveBlock → LiveBlock) (bs : List LiveBlock)
    → ((b : LiveBlock) → ((f b).job_id ≡ b.job_id) × ((f b).seq ≡ b.seq))
    → DistinctSeqs bs
    → DistinctSeqs (update_where p f bs)
unfolding update_where
update-DistinctSeqs p f [] same d = tt
update-DistinctSeqs p f (b ∷ bs) same d = (
  keep (p b) (
      All-update (λ c. c.job_id ≡ b.job_id → c.seq ≢ b.seq) p f bs
        (λ c _ h e. ground (arith, same c, h (ground (arith, same c)))) d.0),
  update-DistinctSeqs p f bs same d.1,
)
  where
    keep :
        (t : Bool)
        → All (λ c. c.job_id ≡ b.job_id → c.seq ≢ b.seq) (update_where p f bs)
        → All
            (λ c. c.job_id ≡ (if t then f b else b).job_id → c.seq ≢ (if t then f b else b).seq)
            (update_where p f bs)
    keep true h =
        All-map (update_where p f bs)
          (λ c (k : c.job_id ≡ b.job_id → c.seq ≢ b.seq) e.
            ground (arith, same b, k (ground (arith, same b))))
          h
    keep false h = h

delete-DistinctSeqs :
    (p : LiveBlock → Bool) (bs : List LiveBlock)
    → DistinctSeqs bs
    → DistinctSeqs (delete_where p bs)
unfolding delete_where
delete-DistinctSeqs p [] d = tt
delete-DistinctSeqs p (b ∷ bs) d = go (p b) (delete-DistinctSeqs p bs d.1)
  where
    go :
        (t : Bool)
        → DistinctSeqs (delete_where p bs)
        → DistinctSeqs (if t then delete_where p bs else b ∷ delete_where p bs)
    go true r = r
    go false r = (All-delete (λ c. c.job_id ≡ b.job_id → c.seq ≢ b.seq) p bs d.0, r)

-- The result of a transcription moves no block: the places of a session stay different.
pub resolve_file_block-DistinctSeqs :
    (w : World) (job_id clip_id : ℕ) (text : Text) (ms : ℕ) (failed : Bool)
    → DistinctSeqs w.blocks
    → DistinctSeqs (resolve_file_block w job_id clip_id text ms failed).blocks
unfolding resolve_file_block
resolve_file_block-DistinctSeqs w job_id clip_id text ms failed d =
    go (find_first (clip_block_of job_id clip_id) w.blocks) refl
  where
    go :
        (o : Option LiveBlock)
        → find_first (clip_block_of job_id clip_id) w.blocks ≡ o
        → DistinctSeqs (resolve_file_block w job_id clip_id text ms failed).blocks
    go none e = ground arith
    go (some b) e = ground (
      arith,
      update-DistinctSeqs (same_block b) (resolved text ms failed) w.blocks (λ c. (refl, refl)) d,
    )

-- An edit, accepted or refused, keeps the places of the blocks of a session different.
pub edit_block-DistinctSeqs :
    (w : World) (user : Option Account) (job_id block_id : ℕ) (text : Text)
    → DistinctSeqs w.blocks
    → DistinctSeqs (edit_block w user job_id block_id text).1.blocks
unfolding edit_block
edit_block-DistinctSeqs w user job_id block_id text d =
    commit-keeps (λ x. DistinctSeqs x.blocks) w (edit_block_body w user job_id block_id text) d
      λ r t e.
        let x = edit_block_body-eq-ok w user job_id block_id text r t e in
        rw x.7
          (update-DistinctSeqs (same_block x.1) (rewritten text) w.blocks (λ c. (refl, refl)) d)

-- A deletion, accepted or refused, keeps the places of the blocks of a session different.
pub delete_block-DistinctSeqs :
    (w : World) (user : Option Account) (job_id block_id : ℕ)
    → DistinctSeqs w.blocks
    → DistinctSeqs (delete_block w user job_id block_id).1.blocks
unfolding delete_block
delete_block-DistinctSeqs w user job_id block_id d =
    commit-keeps (λ x. DistinctSeqs x.blocks) w (delete_block_body w user job_id block_id) d
      λ r t e.
        let x = delete_block_body-eq-ok w user job_id block_id r t e in
        rw x.4 (delete-DistinctSeqs (same_block x.1) w.blocks d)
