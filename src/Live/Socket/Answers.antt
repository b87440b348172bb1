-- ===== src/Live/Socket/Answers.antt =====
-- app/live.py: what the microphone's connection answers.
use mathlib.Core.List.{append_assoc}
use voice_2_text.Prelude.{
  ℕ, ◌+◌, ◌-◌, ◌≡◌, ◌<◌, refl, subst, ◌∙◌, ltb, leb, ◌==◌, ◌||◌, ◌%◌, Bool, true, false, not,
  Option, none, some, List, [], ◌∷◌, Text, length, drop, is_empty, exists, exists-append_none, ◌++◌,
  ap, sym, if_holds, if◌then◌else◌, arith,
}
use voice_2_text.Database.{LiveBlock, Source, BlockState, World}
use voice_2_text.Auth.{Account}
use voice_2_text.Config.{Config}
use voice_2_text.Live.{_append_block}
use voice_2_text.Live.Socket.{
  Engine, transcribe_pcm, Reply, dropped, empty, invalid_audio, not_decoded, not_saved, block,
  ready, Audio, Frame, audio, finish, ping, other, malformed, disconnect, Turn, store, decode_audio,
  take_audio, take_frame, serve, said, has_access, is_allowed, cap, client_seq, live_socket,
  open_socket, Opening, rejected, accepted,
}

-- the number of the utterance, if this is the last word about it
abbrev pub last_word : Reply → List ℕ
last_word (dropped seq) = seq ∷ []
last_word (empty seq) = seq ∷ []
last_word (invalid_audio seq) = seq ∷ []
last_word (not_decoded seq) = seq ∷ []
last_word (not_saved seq) = seq ∷ []
last_word (block seq b) = seq ∷ []
last_word _ = []

unfoldable pub last_words : List Reply → List ℕ
last_words [] = []
last_words (r ∷ rs) = last_word r ++ last_words rs

-- the number of an utterance: an audio message of at least four bytes
abbrev pub utterance : Frame → List ℕ
utterance (audio a) = if leb 4 (length a.payload) then client_seq a.payload ∷ [] else []
utterance _ = []

unfoldable pub utterances : List Frame → List ℕ
utterances [] = []
utterances (f ∷ fs) = utterance f ++ utterances fs

last_words-append : (rs qs : List Reply) → last_words (rs ++ qs) ≡ last_words rs ++ last_words qs
unfolding last_words
last_words-append [] qs = refl
last_words-append (r ∷ rs) qs =
    ap (λ ns. last_word r ++ ns) (last_words-append rs qs)
    ∙ sym (append_assoc (last_word r) (last_words rs) (last_words qs))

abbrev pub is_dropped : Reply → Bool
is_dropped (dropped seq) = true
is_dropped _ = false

-- A turn that leaves the count of the decodings as it is, drops nothing, and gives the last word about
-- these utterances if the connection goes on.
abbrev Answers : ℕ → List ℕ → Turn → Type 0
Answers inflight ns t =
    (t.inflight ≡ inflight)
    × (exists is_dropped t.replies ≡ false)
    × (t.goes_on ≡ true → last_words t.replies ≡ ns)

said-Answers :
    (seq : ℕ) (o : Option LiveBlock) (w : World) (inflight : ℕ)
    → Answers inflight
        (seq ∷ [])
        (record { replies = said seq o ∷ []; world = w; inflight = inflight; goes_on = true })
unfolding last_words exists
said-Answers seq none w inflight = (refl, refl, λ _. refl)
said-Answers seq (some b) w inflight = (refl, refl, λ _. refl)

store-Answers :
    (e : Engine) (job_id : ℕ) (a : Audio) (o : Option Text) (inflight : ℕ) (w : World)
    → Answers inflight (client_seq a.payload ∷ []) (store e job_id a o inflight w)
unfolding store last_words exists
store-Answers e job_id a none inflight w = (refl, refl, λ _. refl)
store-Answers e job_id a (some text) inflight w =
    if_holds (Answers inflight (client_seq a.payload ∷ [])) (is_empty text) _ _
      (λ _. (refl, refl, λ _. refl))
      (λ _.
        if_holds (Answers inflight (client_seq a.payload ∷ [])) (has_access a.after) _ _
          (λ _.
            said-Answers (client_seq a.payload) _
              (_append_block w a.block_id job_id text Source.mic
                (e.millis (length (drop 4 a.payload))) BlockState.done none none).1
              inflight)
          (λ _. (refl, refl, λ g. absurd (ground arith))))

decode_audio-Answers :
    (e : Engine) (job_id : ℕ) (a : Audio) (inflight : ℕ) (w : World)
    → Answers inflight (client_seq a.payload ∷ []) (decode_audio e job_id a inflight w)
unfolding decode_audio last_words exists
decode_audio-Answers e job_id a inflight w =
    let x =
      store-Answers e job_id a (transcribe_pcm e (drop 4 a.payload)) (inflight + 1 - 1)
        (a.meanwhile w) in
    (x.0 ∙ omega arith, x.1, x.2)

take_audio-Answers :
    (e : Engine) (job_id : ℕ) (a : Audio) (inflight : ℕ) (w : World)
    → inflight < e.max_queued
    → Answers inflight (utterance (audio a)) (take_audio e job_id a inflight w)
unfolding take_audio last_words exists
take_audio-Answers e job_id a inflight w free =
    let P : Turn → Type 0 = Answers inflight (utterance (audio a)) in
    if_holds P (ltb (length a.payload) 4) _ _ (λ short. (refl, refl, λ _. ground arith))
      (λ long.
        if_holds P (is_allowed a.before job_id w) _ _
          (λ _.
            if_holds P
              (ltb cap (length (drop 4 a.payload)) || not (length (drop 4 a.payload) % 2 == 0)) _ _
              (λ _.
                once
                  (record {
                    replies = invalid_audio (client_seq a.payload) ∷ [];
                    world = w;
                    inflight = inflight;
                    goes_on = true;
                  })
                  long (refl, refl, λ _. refl))
              (λ _.
                if_holds P (leb e.max_queued inflight) _ _ (λ full. absurd (ground arith))
                  (λ _.
                    once (decode_audio e job_id a inflight w) long
                      (decode_audio-Answers e job_id a inflight w))))
          (λ _. (refl, refl, λ g. absurd (ground arith))))
  where
    numbered : ltb (length a.payload) 4 ≡ false → client_seq a.payload ∷ [] ≡ utterance (audio a)
    numbered long = ground arith

    once :
        (t : Turn)
        → ltb (length a.payload) 4 ≡ false
        → Answers inflight (client_seq a.payload ∷ []) t
        → Answers inflight (utterance (audio a)) t
    once t long k = subst (λ ns. Answers inflight ns t) (numbered long) k

take_frame-Answers :
    (e : Engine) (job_id : ℕ) (f : Frame) (inflight : ℕ) (w : World)
    → inflight < e.max_queued
    → Answers inflight (utterance f) (take_frame e job_id f inflight w)
unfolding take_frame last_words exists
take_frame-Answers e job_id (audio a) inflight w free =
    take_audio-Answers e job_id a inflight w free
take_frame-Answers e job_id finish inflight w free = (refl, refl, λ g. absurd (ground arith))
take_frame-Answers e job_id ping inflight w free = (refl, refl, λ _. refl)
take_frame-Answers e job_id other inflight w free = (refl, refl, λ _. refl)
take_frame-Answers e job_id malformed inflight w free = (refl, refl, λ g. absurd (ground arith))
take_frame-Answers e job_id disconnect inflight w free = (refl, refl, λ g. absurd (ground arith))

serve-Answers :
    (e : Engine) (job_id : ℕ) (fs : List Frame) (inflight : ℕ) (w : World)
    → inflight < e.max_queued
    → let r = serve e job_id fs inflight w in
      (exists is_dropped r.0 ≡ false) × (r.1.1 ≡ true → last_words r.0 ≡ utterances fs)
unfolding serve last_words utterances exists
serve-Answers e job_id [] inflight w free = (refl, λ _. refl)
serve-Answers e job_id (f ∷ fs) inflight w free =
    let t = take_frame e job_id f inflight w in
    let x = take_frame-Answers e job_id f inflight w free in
    let rest = serve-Answers e job_id fs t.inflight t.world (rw x.0 free) in
    if_holds
      (λ (r : List Reply × (World × Bool)).
        (exists is_dropped r.0 ≡ false) × (r.1.1 ≡ true → last_words r.0 ≡ utterances (f ∷ fs)))
      t.goes_on _ _
      (λ on. (
        exists-append_none is_dropped t.replies _ x.1 rest.0,
        (λ still.
            last_words-append t.replies (serve e job_id fs t.inflight t.world).0
            ∙ (ap (λ ns. ns ++ last_words (serve e job_id fs t.inflight t.world).0) (x.2 on)
                ∙ ap (λ ns. utterance f ++ ns) (rest.1 still))),
      ))
      (λ off. (x.1, λ still. absurd (ground arith)))

-- As long as the connection is open after them, the client gets exactly one last word about each
-- utterance that it has sent, under the number of that utterance and in their order; and none of
-- these says that the server was busy, since each decoding is awaited, where the setting allows one in
-- the queue.
pub live_socket-answers :
    (config : Config) (e : Engine) (enabled : Bool) (expected : Text) (origin : Option Text)
    (user : Option Account) (job_id : ℕ) (fs : List Frame) (w : World)
    → 0 < e.max_queued
    → let r = (live_socket config e enabled expected origin user job_id fs w).1 in
      (exists is_dropped r.0 ≡ false) × (r.1.1 ≡ true → last_words r.0 ≡ utterances fs)
unfolding live_socket exists last_words utterances
live_socket-answers config e enabled expected origin user job_id fs w free =
    go (open_socket config e.live_tier enabled expected origin user job_id w)
  where
    go :
        (o : Opening)
        → let r : List Reply × (World × Bool) = elim o [
          | rejected code ↦ ([], (w, false))
          | accepted tier ↦
              let r = serve (record e { tier = tier }) job_id fs 0 w in (ready tier ∷ r.0, r.1)
        ] in
          (exists is_dropped r.0 ≡ false) × (r.1.1 ≡ true → last_words r.0 ≡ utterances fs)
    go (rejected code) = (refl, λ still. absurd (ground arith))
    go (accepted tier) = serve-Answers (record e { tier = tier }) job_id fs 0 w free
