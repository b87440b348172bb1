-- ===== src/Live/Socket.antt =====
-- app/live.py: `live_socket` and `transcribe_pcm`.
pub mod Answers
pub mod Stored
use voice_2_text.Prelude.{
  ℕ, ◌+◌, ◌-◌, ◌*◌, ◌/◌, ◌%◌, ◌==◌, ltb, leb, Bool, true, false, not, ◌&&◌, ◌||◌, Option, none,
  some, String, List, [], ◌∷◌, ◌++◌, Text, length, drop, is_empty, find_first, if◌then◌else◌,
}
use voice_2_text.Database.{Job, JobStatus, LiveBlock, Source, BlockState, World, is_opened, is_key}
use voice_2_text.Auth.{Account, is_approved, owns}
use voice_2_text.Tasks.{by_id}
use voice_2_text.Config.{Config, contains}
use voice_2_text.Boundary.{is_own_origin, strip_slashes}
use voice_2_text.Live.{_append_block}

abbrev pub sample_rate : ℕ
sample_rate = 16000

-- SAMPLE_RATE * 2 * MAX_UTTERANCE_SEC
abbrev pub cap : ℕ
cap = sample_rate * 2 * 30

-- The settings LIVE_MAX_QUEUED, ASR_BACKEND == "stub" and LIVE_TIER; the tier of the connection;
-- `decode` is the model with the clean-up of its text, none when it raises; `millis` is the
-- arithmetic of the duration.
pub record Engine : Type 0 where
  pub max_queued : ℕ
  pub is_stub : Bool
  pub stub_text : Text
  pub live_tier : String
  pub tier : String
  pub decode : String → List ℕ → Option Text
  pub millis : ℕ → ℕ

-- `len(pcm) // 2 < SAMPLE_RATE * MIN_UTTERANCE_SEC`
unfoldable pub transcribe_pcm : Engine → List ℕ → Option Text
transcribe_pcm e pcm =
    if ltb (length pcm / 2) 5600
    then some []
    else if e.is_stub
    then some e.stub_text
    else e.decode e.tier pcm

-- struct.unpack_from("<I", payload, 0)
unfoldable pub client_seq : List ℕ → ℕ
client_seq (a ∷ b ∷ c ∷ d ∷ _) = a + 256 * (b + 256 * (c + 256 * d))
client_seq _ = 0

-- What the server sends: `type` with its number, if there is one. The errors are told apart by their
-- message; `shut_out` and `lost_access` are the fatal ones.
pub data Reply : Type 0 where
  working dropped empty invalid_audio not_decoded not_saved : ℕ → Reply
  block : ℕ → LiveBlock → Reply
  ready : String → Reply
  shut_out lost_access finished pong : Reply

-- A binary message, with what the world around it does: the sessions that the two lookups find, the
-- fresh id of the block, and what others commit during the decoding.
pub record Audio : Type 0 where
  pub payload : List ℕ
  pub before : Option Account
  pub after : Option Account
  pub block_id : ℕ
  pub meanwhile : World → World

-- A text that is no JSON is passed over like a JSON object of another type (`other`); a JSON value
-- that is no object has no `get`, so it ends the connection (`malformed`).
pub data Frame : Type 0 where
  audio : Audio → Frame
  finish ping other malformed disconnect : Frame

-- What one turn of the loop leaves.
pub record Turn : Type 0 where
  pub replies : List Reply
  pub world : World
  pub inflight : ℕ
  pub goes_on : Bool

unfoldable pub is_allowed : Option Account → ℕ → World → Bool
is_allowed none job_id w = false
is_allowed (some a) job_id w = elim (find_first (by_id job_id) w.jobs) [
  | none ↦ false
  | some job ↦ is_approved a.status && (is_key job.owner_id a.id && is_opened job.status)
]

abbrev pub has_access : Option Account → Bool
has_access none = false
has_access (some a) = is_approved a.status

abbrev pub said : ℕ → Option LiveBlock → Reply
said seq none = not_saved seq
said seq (some b) = block seq b

-- After the decoding, when `inflight` is down again.
unfoldable pub store : Engine → ℕ → Audio → Option Text → ℕ → World → Turn
store e job_id a none inflight w = record {
  replies = not_decoded (client_seq a.payload) ∷ [];
  world = w;
  inflight = inflight;
  goes_on = true;
}
store e job_id a (some text) inflight w =
    let seq = client_seq a.payload in
    if is_empty text
    then record { replies = empty seq ∷ []; world = w; inflight = inflight; goes_on = true }
    else if has_access a.after
    then (let r =
          _append_block w a.block_id job_id text Source.mic (e.millis (length (drop 4 a.payload)))
            BlockState.done none none in
        record { replies = said seq r.0 ∷ []; world = r.1; inflight = inflight; goes_on = true })
    else record { replies = lost_access ∷ []; world = w; inflight = inflight; goes_on = false }

-- The code awaits the decoding here, with the count one higher.
unfoldable pub decode_audio : Engine → ℕ → Audio → ℕ → World → Turn
decode_audio e job_id a inflight w =
    let counted = inflight + 1 in
    let t = store e job_id a (transcribe_pcm e (drop 4 a.payload)) (counted - 1) (a.meanwhile w) in
    record t { replies = working (client_seq a.payload) ∷ t.replies }

unfoldable pub take_audio : Engine → ℕ → Audio → ℕ → World → Turn
take_audio e job_id a inflight w =
    let seq = client_seq a.payload in
    let pcm = drop 4 a.payload in
    if ltb (length a.payload) 4
    then record { replies = []; world = w; inflight = inflight; goes_on = true }
    else if is_allowed a.before job_id w
    then (if ltb cap (length pcm) || not (length pcm % 2 == 0)
        then record {
          replies = invalid_audio seq ∷ [];
          world = w;
          inflight = inflight;
          goes_on = true;
        }
        else if leb e.max_queued inflight
        then record { replies = dropped seq ∷ []; world = w; inflight = inflight; goes_on = true }
        else decode_audio e job_id a inflight w)
    else record { replies = shut_out ∷ []; world = w; inflight = inflight; goes_on = false }

unfoldable pub take_frame : Engine → ℕ → Frame → ℕ → World → Turn
take_frame e job_id (audio a) inflight w = take_audio e job_id a inflight w
take_frame e job_id finish inflight w = record {
  replies = finished ∷ [];
  world = w;
  inflight = inflight;
  goes_on = false;
}
take_frame e job_id ping inflight w = record {
  replies = pong ∷ [];
  world = w;
  inflight = inflight;
  goes_on = true;
}
take_frame e job_id other inflight w = record {
  replies = [];
  world = w;
  inflight = inflight;
  goes_on = true;
}
take_frame e job_id malformed inflight w = record {
  replies = [];
  world = w;
  inflight = inflight;
  goes_on = false;
}
take_frame e job_id disconnect inflight w = record {
  replies = [];
  world = w;
  inflight = inflight;
  goes_on = false;
}

-- The loop over the messages: the replies, the tables, and whether the connection is still open.
unfoldable pub serve : Engine → ℕ → List Frame → ℕ → World → List Reply × (World × Bool)
serve e job_id [] inflight w = ([], (w, true))
serve e job_id (f ∷ fs) inflight w =
    let t = take_frame e job_id f inflight w in
    let rest = serve e job_id fs t.inflight t.world in
    if t.goes_on then (t.replies ++ rest.0, rest.1) else (t.replies, (t.world, false))

-- The greeting: a refusal with its close code, or the connection with its tier. `user` is what the
-- lookup finds.
pub data Opening : Type 0 where
  rejected : ℕ → Opening
  accepted : String → Opening

abbrev pub tier_of : Config → String → Job → String
tier_of config live_tier job =
    if contains job.tier config.enabled_tiers then job.tier else live_tier

unfoldable pub open_socket :
    Config → String → Bool → Text → Option Text → Option Account → ℕ → World → Opening
open_socket config live_tier enabled expected origin user job_id w =
    if enabled
    then (if is_own_origin (strip_slashes expected) origin && has_access user
        then (elim user [
          | none ↦ rejected 1008
          | some a ↦ elim (find_first (owns a.id job_id) w.jobs) [
            | none ↦ rejected 1008
            | some job ↦
                if job.is_session && is_opened job.status
                then accepted (tier_of config live_tier job)
                else rejected 1008
          ]
        ])
        else rejected 1008)
    else rejected 1011

-- The whole connection, with no decoding running at first.
unfoldable pub live_socket :
    Config
    → Engine
    → Bool
    → Text
    → Option Text
    → Option Account
    → ℕ
    → List Frame
    → World
    → Opening × (List Reply × (World × Bool))
live_socket config e enabled expected origin user job_id frames w =
    let opening = open_socket config e.live_tier enabled expected origin user job_id w in
    (
      opening,
      elim opening [
        | rejected code ↦ ([], (w, false))
        | accepted tier ↦
            let r = serve (record e { tier = tier }) job_id frames 0 w in (ready tier ∷ r.0, r.1)
      ],
    )
