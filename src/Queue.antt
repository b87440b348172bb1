-- ===== src/Queue.antt =====
-- app/queue.py: the calls of Redis and RQ. `up` says whether Redis answers; a call that does not
-- reach it is not recorded.
use voice_2_text.Prelude.{
  ℕ, ◌==◌, Bool, true, false, ◌&&◌, Option, none, some, List, [], ◌∷◌, if◌then◌else◌,
}
use voice_2_text.Database.{
  QueueItem, transcribe, clip, RedisCall, enqueued, canceled_item, set_cancel, delete_cancel, World,
}

abbrev pub call : RedisCall → World → World
call c w = record w { redis = c ∷ w.redis }

-- `none` is the exception that the caller sees.
unfoldable pub enqueue : Bool → ℕ → World → Option QueueItem × World
enqueue up job_id w =
    if up then (some (transcribe job_id), call (enqueued (transcribe job_id)) w) else (none, w)

-- The exception is caught: `none` is the result None.
unfoldable pub enqueue_clip : Bool → ℕ → ℕ → World → Option QueueItem × World
enqueue_clip up job_id clip_id w =
    if up then (some (clip job_id clip_id), call (enqueued (clip job_id clip_id)) w) else (none, w)

unfoldable pub cancel : Bool → QueueItem → World → Bool × World
cancel up item w = if up then (true, call (canceled_item item) w) else (false, w)

unfoldable pub request_cancel : Bool → ℕ → World → Bool × World
request_cancel up job_id w = if up then (true, call (set_cancel job_id) w) else (false, w)

unfoldable pub clear_cancel : Bool → ℕ → World → World
clear_cancel up job_id w = if up then call (delete_cancel job_id) w else w

-- Redis keeps the key `majles:cancel:{job_id}` from its SET to its DELETE.
unfoldable pub flagged : ℕ → List RedisCall → Bool
flagged job_id [] = false
flagged job_id (set_cancel i ∷ cs) = if i == job_id then true else flagged job_id cs
flagged job_id (delete_cancel i ∷ cs) = if i == job_id then false else flagged job_id cs
flagged job_id (enqueued i ∷ cs) = flagged job_id cs
flagged job_id (canceled_item i ∷ cs) = flagged job_id cs

unfoldable pub is_cancel_requested : Bool → ℕ → World → Bool
unfolding flagged
is_cancel_requested up job_id w = up && flagged job_id w.redis
