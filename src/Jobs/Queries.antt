-- ===== src/Jobs/Queries.antt =====
-- app/main.py: the handlers that only read: `list_jobs`, `get_job`, `get_segments`, and `download` up
-- to the format.
use voice_2_text.Prelude.{
  ℕ, ◌==◌, Bool, true, false, ◌&&◌, max, min, Option, none, some, String, List, [], ◌∷◌, map,
  length, take, drop, find_first, select, count_where, if◌then◌else◌,
}
use voice_2_text.Http.{Result, ok, HttpError, require, found, ◌>>=◌, ◌>>◌}
use voice_2_text.Config.{contains}
use voice_2_text.Database.{JobStatus, Job, AudioClip, Segment, World, is_key}
use voice_2_text.Auth.{Account, require_user, owned_job}

abbrev pub same_status : JobStatus → JobStatus → Bool
same_status JobStatus.opened JobStatus.opened = true
same_status JobStatus.queued JobStatus.queued = true
same_status JobStatus.running JobStatus.running = true
same_status JobStatus.done JobStatus.done = true
same_status JobStatus.failed JobStatus.failed = true
same_status JobStatus.canceled JobStatus.canceled = true
same_status _ _ = false

-- The status in the query: missing, a word that is no status, or a status.
pub data StatusFilter : Type 0 where
  any unknown : StatusFilter
  only : JobStatus → StatusFilter

abbrev pub is_known : StatusFilter → Bool
is_known unknown = false
is_known _ = true

abbrev pub has_status : StatusFilter → Job → Bool
has_status (only s) j = same_status j.status s
has_status _ j = true

-- the rows of the caller that the search finds; `matches` is the search, or all
unfoldable pub hits : ℕ → StatusFilter → (Job → Bool) → World → List Job
hits user_id filter matches w =
    select (λ j. is_key j.owner_id user_id && (matches j && has_status filter j)) w.jobs

-- `counts.get(id, 0 if is_session else 1)`
unfoldable pub clip_count : List AudioClip → Job → ℕ
clip_count clips j =
    let n = count_where (λ c. c.job_id == j.id) clips in
    if n == 0 then (if j.is_session then 0 else 1) else n

-- `newest` is the ORDER BY of the database, which leaves open how rows of the same time stand.
unfoldable pub list_jobs :
    (List Job → List Job)
    → Option Account
    → ℕ
    → ℕ
    → StatusFilter
    → (Job → Bool)
    → World
    → Result (ℕ × List (Job × ℕ))
list_jobs newest user limit offset filter matches w = do
  require (is_known filter) HttpError.bad_request
  account ← require_user user true false
  let rows = hits account.id filter matches w
  let page = take (max 1 (min limit 200)) (drop offset (newest rows))
  ok (length rows, map (λ j. (j, clip_count w.clips j)) page)

-- the row; its place in the queue is read from Redis beside it
unfoldable pub get_job : World → Option Account → ℕ → Result Job
get_job w user job_id = owned_job w.jobs user job_id

-- results.load
unfoldable pub load_result : ℕ → World → Option (List Segment)
load_result job_id w = elim (find_first (λ r. r.0 == job_id) w.results) [
  | none ↦ none
  | some (_, segments) ↦ some segments
]

unfoldable pub get_segments : World → Option Account → ℕ → Result (List Segment)
get_segments w user job_id = do
  job ← owned_job w.jobs user job_id
  found (load_result job_id w) HttpError.not_found

abbrev pub is_job_done : JobStatus → Bool
is_job_done JobStatus.done = true
is_job_done _ = false

abbrev pub formats : List String
formats = "txt" ∷ "plain" ∷ "srt" ∷ "vtt" ∷ "json" ∷ "docx" ∷ []

-- the segments that are put into the format
unfoldable pub download : World → Option Account → ℕ → String → Result (List Segment)
download w user job_id format = do
  require (contains format formats) HttpError.bad_request
  job ← owned_job w.jobs user job_id
  require (is_job_done job.status) HttpError.conflict
  found (load_result job_id w) HttpError.not_found
