-- ===== src/Tests/Live.antt =====
-- The theorems on app/live.py, at an open session.
use voice_2_text.Prelude
use voice_2_text.Database
use voice_2_text.Prelude.{
  ℕ, ◌≡◌, ◌≢◌, refl, Bool, true, false, Option, none, some, List, [], ◌∷◌, ◌++◌, All₂, find_first,
  arith, exists, count_where, ◌/◌, if◌then◌else◌, is_empty, strip,
}
use voice_2_text.Http.{ok}
use voice_2_text.Database.{JobStatus, Stage, Job, Source, BlockState, LiveBlock, World}
use voice_2_text.Auth
use voice_2_text.Auth.{owned_job}
use voice_2_text.Live
use voice_2_text.Live.{
  _append_block, new_block, resolve_file_block, edit_block, delete_block, session_text,
  clip_block_of, block_of,
}
use voice_2_text.Live.Order.{DistinctSeqs}
use voice_2_text.Live.History.{History, start, append, edit, History-DistinctSeqs}
use voice_2_text.Live.Socket.{Engine, Audio, audio, ping, finish, live_socket, serve}
use voice_2_text.Live.Socket.Answers.{is_dropped, last_words, utterances, live_socket-answers}
use voice_2_text.Live.Socket.Stored.{told, serve-told}
use voice_2_text.Live.Words.{session_text-_append_block}
use voice_2_text.Live.Edits.{SameBut, edit_block-ok, resolve_file_block-edit_block}
use voice_2_text.Tests.{settings, sina, block_at, open_session}

abbrev blank : World
blank = record open_session { blocks = [] }

-- two utterances, and an edit that is refused
past :
    History blank
      (edit_block
        (_append_block
          (_append_block blank 3 1 (98 ∷ []) Source.mic 900 BlockState.done none none).1
          4
          1
          (97 ∷ [])
          Source.mic
          500
          BlockState.done
          none
          none).1
        (some sina)
        1
        9
        (99 ∷ [])).1
past = edit (some sina) 1 9 (99 ∷ []) (
    append 4 1 (97 ∷ []) Source.mic 500 BlockState.done none none
      (append 3 1 (98 ∷ []) Source.mic 900 BlockState.done none none start))

History-DistinctSeqs_example :
    DistinctSeqs
      (edit_block
        (_append_block
          (_append_block blank 3 1 (98 ∷ []) Source.mic 900 BlockState.done none none).1
          4
          1
          (97 ∷ [])
          Source.mic
          500
          BlockState.done
          none
          none).1
        (some sina)
        1
        9
        (99 ∷ [])).1.blocks
History-DistinctSeqs_example = History-DistinctSeqs blank _ refl past

abbrev engine : Engine
engine = record {
  max_queued = 3;
  is_stub = false;
  stub_text = [];
  live_tier = "fast";
  tier = "fast";
  decode = λ tier pcm. some (98 ∷ []);
  millis = λ n. n / 32;
}

-- a click that is too short for speech
abbrev click : Audio
click = record {
  payload = 1 ∷ 0 ∷ 0 ∷ 0 ∷ 5 ∷ 0 ∷ [];
  before = some sina;
  after = some sina;
  block_id = 3;
  meanwhile = λ w. w;
}

live_socket-answers_example :
    let r =
      (live_socket settings engine true [] none
        (some sina)
        1
        (audio click ∷ ping ∷ [])
        open_session).1 in
    (exists is_dropped r.0 ≡ false)
    × (r.1.1 ≡ true → last_words r.0 ≡ utterances (audio click ∷ ping ∷ []))
live_socket-answers_example =
    live_socket-answers settings engine true [] none (some sina) 1 (audio click ∷ ping ∷ [])
      open_session (ground arith)

serve-told_example :
    let r = serve engine 1 (audio click ∷ finish ∷ []) 0 open_session in
    r.1.0.blocks ≡ open_session.blocks ++ told r.0
serve-told_example =
    serve-told engine 1 (audio click ∷ finish ∷ []) 0 open_session ((λ w. refl), (tt, tt))

abbrev spoken : LiveBlock
spoken = record (block_at 3 0 BlockState.done) {
  source = Source.mic;
  text = 98 ∷ [];
  clip_id = none;
  duration_ms = 900;
}

speaking :
    _append_block open_session 3 1 (98 ∷ []) Source.mic 900 BlockState.done none none
    ≡ (some spoken, record open_session { blocks = open_session.blocks ++ spoken ∷ [] })
unfolding _append_block new_block Prelude.find_first Database.next_block_seq Prelude.select
    Database.of_job
speaking = refl

session_text-_append_block_example :
    session_text (record open_session { blocks = open_session.blocks ++ spoken ∷ [] }) 1 ≡ (
      if is_empty (strip (98 ∷ []))
      then session_text open_session 1
      else if is_empty (session_text open_session 1)
      then strip (98 ∷ [])
      else session_text open_session 1 ++ (10 ∷ 10 ∷ strip (98 ∷ [])))
session_text-_append_block_example =
    session_text-_append_block open_session 3 1 (98 ∷ []) Source.mic 900 none none speaking

abbrev edited : LiveBlock
edited = record (block_at 1 10 BlockState.done) { text = 98 ∷ []; edited = true }

editing : (edit_block open_session (some sina) 1 1 (98 ∷ [])).0 ≡ ok edited
unfolding edit_block Live.edit_block_body Live.rewritten owned_job Auth.owns Auth.require_user
    Prelude.find_first strip
editing = refl

edit_block-ok_example :
    (job : Job) × (b : LiveBlock) × (owned_job open_session.jobs (some sina) 1 ≡ ok job)
    × (job.status ≡ JobStatus.opened)
    × (b.id ≡ 1)
    × (b.job_id ≡ 1)
    × (b.state ≡ BlockState.done)
    × (edited ≡ record b { text = strip (98 ∷ []); edited = true })
    × All₂
        (SameBut 1)
        open_session.blocks
        (edit_block open_session (some sina) 1 1 (98 ∷ [])).1.blocks
edit_block-ok_example = edit_block-ok open_session (some sina) 1 1 (98 ∷ []) edited editing

resolve_file_block-edit_block_example :
    let t = (edit_block open_session (some sina) 1 1 (98 ∷ [])).1 in
    resolve_file_block t 1 10 (99 ∷ []) 900 false ≡ t
resolve_file_block-edit_block_example =
    resolve_file_block-edit_block open_session (some sina) 1 1 10 (98 ∷ []) (99 ∷ []) 900 false
      ((ground arith, tt), (tt, tt)) editing (unfold Prelude.find_first in refl)
