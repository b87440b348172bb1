-- ===== src/Live/Words.antt =====
-- app/live.py: the text of a session, as live blocks are appended to it.
use mathlib.Core.List.{append-nil}
use voice_2_text.Prelude.{
  ℕ, ◌≡◌, ◌<◌, refl, ap, Bool, true, false, Option, some, List, [], ◌∷◌, ◌++◌, Text, All, All-map,
  All-select, select, select-append, sort_by, sort_by-append, strip, join, join-append, is_empty,
  arith, if◌then◌else◌,
}
use voice_2_text.Database.{Source, BlockState, LiveBlock, World, next_block_seq}
use voice_2_text.Live.{new_block, _append_block, done_of_job, words_of, session_text}
use voice_2_text.Live.Edits.{_append_block-eq-some}
use voice_2_text.Live.Order.{lt-next_block_seq}

words_of-append :
    (bs : List LiveBlock) (b : LiveBlock)
    → words_of (bs ++ b ∷ [])
      ≡ words_of bs ++ (if is_empty (strip b.text) then [] else strip b.text ∷ [])
unfolding words_of
words_of-append [] b = ground arith
words_of-append (c ∷ bs) b = ground (arith, words_of-append bs b)

abbrev Full : Text → Type 0
Full t = is_empty t ≡ false

words_of-Full : (bs : List LiveBlock) → All Full (words_of bs)
unfolding words_of
words_of-Full [] = tt
words_of-Full (b ∷ bs) = ground (arith, words_of-Full bs)

abbrev blank_line : Text
blank_line = 10 ∷ 10 ∷ []

-- `join` with one more part: the separator stands before it, unless it is the first.
join-snoc :
    (ps : List Text) (q : Text)
    → All Full ps
    → join blank_line (ps ++ q ∷ [])
      ≡ (if is_empty (join blank_line ps) then q else join blank_line ps ++ (blank_line ++ q))
unfolding join
join-snoc [] q h = refl
join-snoc ((c ∷ p) ∷ []) q h = join-append blank_line (c ∷ p) [] q
join-snoc ((c ∷ p) ∷ r ∷ ps) q h = join-append blank_line (c ∷ p) (r ∷ ps) q
join-snoc ([] ∷ ps) q h = absurd (ground arith)

done_blocks-append :
    (blocks : List LiveBlock) (b : LiveBlock)
    → b.state ≡ BlockState.done
    → b.seq ≡ next_block_seq blocks b.job_id
    → sort_by (λ c. c.seq) (select (done_of_job b.job_id) (blocks ++ b ∷ []))
      ≡ sort_by (λ c. c.seq) (select (done_of_job b.job_id) blocks) ++ b ∷ []
done_blocks-append blocks b is_done place =
    rw (select-append (done_of_job b.job_id) blocks (b ∷ []), one)
      (sort_by-append (λ c. c.seq) (select (done_of_job b.job_id) blocks) b below)
  where
    one : select (done_of_job b.job_id) (b ∷ []) ≡ b ∷ []
    one = unfold select in ground arith

    below : All (λ c. c.seq < b.seq) (select (done_of_job b.job_id) blocks)
    below =
        All-select (λ c. c.seq < b.seq) (done_of_job b.job_id) blocks
          (All-map blocks
            (λ c (h : c.job_id ≡ b.job_id → c.seq < next_block_seq blocks b.job_id) t.
              rw place (h (ground arith)))
            (lt-next_block_seq blocks b.job_id))

-- What is spoken into an open session is added at the end of its text, stripped and after a blank
-- line; silence adds nothing.
pub session_text-_append_block :
    (w : World) (id job_id : ℕ) (text : Text) (source : Source) (ms : ℕ) (label : Option Text)
    (clip_id : Option ℕ) {b : LiveBlock} {t : World}
    → _append_block w id job_id text source ms BlockState.done label clip_id ≡ (some b, t)
    → session_text t job_id ≡ (
        if is_empty (strip text)
        then session_text w job_id
        else if is_empty (session_text w job_id)
        then strip text
        else session_text w job_id ++ (10 ∷ 10 ∷ strip text))
unfolding session_text new_block
session_text-_append_block w id job_id text source ms label clip_id {b} {t} h =
    let x = _append_block-eq-some w id job_id text source ms BlockState.done label clip_id b t h in
    let n = new_block w id job_id text source ms BlockState.done label clip_id in
    let before = sort_by (λ c. c.seq) (select (done_of_job job_id) w.blocks) in
    let more = done_blocks-append w.blocks n refl refl in
    rw (x.4, x.3, more) (rw (words_of-append before n) (go before (is_empty (strip text)) refl))
  where
    go :
        (before : List LiveBlock) (e : Bool)
        → is_empty (strip text) ≡ e
        → join blank_line
            (words_of before ++ (if is_empty (strip text) then [] else strip text ∷ []))
          ≡ (if is_empty (strip text)
              then join blank_line (words_of before)
              else if is_empty (join blank_line (words_of before))
              then strip text
              else join blank_line (words_of before) ++ (blank_line ++ strip text))
    go before true e = rw e (ap (join blank_line) (append-nil (words_of before)))
    go before false e = rw e (join-snoc (words_of before) (strip text) (words_of-Full before))
