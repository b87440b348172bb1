-- ===== src/Live/Socket/Stored.antt =====
-- app/live.py: what the microphone's connection stores.
use mathlib.Core.List.{append-nil, append_assoc}
use voice_2_text.Prelude.{
  ℕ, ◌+◌, ◌-◌, ◌≡◌, refl, sym, ap, ◌∙◌, Bool, not, ◌||◌, ◌==◌, ◌%◌, ltb, leb, Option, none, some,
  List, [], ◌∷◌, ◌++◌, Text, All, length, drop, is_empty, if_holds, find_first,
}
use voice_2_text.Database.{LiveBlock, Source, BlockState, World, Job, is_opened}
use voice_2_text.Tasks.{by_id}
use voice_2_text.Live.{_append_block}
use voice_2_text.Live.Socket.{
  Engine, transcribe_pcm, Reply, working, dropped, empty, invalid_audio, not_decoded, not_saved,
  block, shut_out, lost_access, finished, pong, ready, Audio, Frame, audio, finish, ping, other,
  malformed, disconnect, Turn, store, decode_audio, take_audio, take_frame, serve, said, has_access,
  is_allowed, cap, client_seq,
}

-- the blocks that the client was told of
unfoldable pub told : List Reply → List LiveBlock
told [] = []
told (block seq b ∷ rs) = b ∷ told rs
told (_ ∷ rs) = told rs

-- what others commit during the decoding is in other tables
abbrev pub LeavesBlocks : Frame → Type 0
LeavesBlocks (audio a) = (w : World) → (a.meanwhile w).blocks ≡ w.blocks
LeavesBlocks _ = Unit

told-append : (rs ss : List Reply) → told (rs ++ ss) ≡ told rs ++ told ss
unfolding told
told-append [] ss = refl
told-append (block seq b ∷ rs) ss = ap (λ z. b ∷ z) (told-append rs ss)
told-append (working n ∷ rs) ss = told-append rs ss
told-append (dropped n ∷ rs) ss = told-append rs ss
told-append (empty n ∷ rs) ss = told-append rs ss
told-append (invalid_audio n ∷ rs) ss = told-append rs ss
told-append (not_decoded n ∷ rs) ss = told-append rs ss
told-append (not_saved n ∷ rs) ss = told-append rs ss
told-append (ready n ∷ rs) ss = told-append rs ss
told-append (shut_out ∷ rs) ss = told-append rs ss
told-append (lost_access ∷ rs) ss = told-append rs ss
told-append (finished ∷ rs) ss = told-append rs ss
told-append (pong ∷ rs) ss = told-append rs ss

-- The blocks after are those before, and the ones that the client is told of.
abbrev Logs : World → Turn → Type 0
Logs w t = t.world.blocks ≡ w.blocks ++ told t.replies

none_told : (w : World) → w.blocks ≡ w.blocks ++ []
none_told w = sym (append-nil w.blocks)

append-Logs :
    (seq : ℕ) (w : World) (id job_id : ℕ) (text : Text) (ms : ℕ)
    → let r = _append_block w id job_id text Source.mic ms BlockState.done none none in
      r.1.blocks ≡ w.blocks ++ told (said seq r.0 ∷ [])
unfolding _append_block told
append-Logs seq w id job_id text ms = go (find_first (by_id job_id) w.jobs) refl
  where
    go :
        (o : Option Job)
        → find_first (by_id job_id) w.jobs ≡ o
        → let r = _append_block w id job_id text Source.mic ms BlockState.done none none in
          r.1.blocks ≡ w.blocks ++ told (said seq r.0 ∷ [])
    go none e = rw (e, _append_block) (none_told w)
    go (some job) e =
        rw (e, _append_block)
          (if_holds
            (λ (r : Option LiveBlock × World). r.1.blocks ≡ w.blocks ++ told (said seq r.0 ∷ []))
            (is_opened job.status) _ _ (λ _. refl) (λ _. none_told w))

module _ (e : Engine) (job_id : ℕ) where
  store-Logs :
      (a : Audio) (o : Option Text) (inflight : ℕ) (w : World)
      → Logs w (store e job_id a o inflight w)
  unfolding store told
  store-Logs a none inflight w = none_told w
  store-Logs a (some text) inflight w =
      if_holds (Logs w) (is_empty text) _ _ (λ _. none_told w)
        (λ _.
          if_holds (Logs w) (has_access a.after) _ _
            (λ _.
              append-Logs (client_seq a.payload) w a.block_id job_id text
                (e.millis (length (drop 4 a.payload))))
            (λ _. none_told w))

  take_audio-Logs :
      (a : Audio) (inflight : ℕ) (w : World)
      → LeavesBlocks (audio a)
      → Logs w (take_audio e job_id a inflight w)
  unfolding take_audio decode_audio told
  take_audio-Logs a inflight w leaves =
      if_holds (Logs w) (ltb (length a.payload) 4) _ _ (λ _. none_told w)
        (λ _.
          if_holds (Logs w) (is_allowed a.before job_id w) _ _
            (λ _.
              if_holds (Logs w)
                (ltb cap (length (drop 4 a.payload)) || not (length (drop 4 a.payload) % 2 == 0)) _
                _ (λ _. none_told w)
                (λ _.
                  if_holds (Logs w) (leb e.max_queued inflight) _ _ (λ _. none_told w)
                    (λ _.
                      store-Logs a (transcribe_pcm e (drop 4 a.payload)) (inflight + 1 - 1)
                        (a.meanwhile w)
                      ∙ ap
                          (λ z.
                            z
                            ++ told
                                (store e job_id a (transcribe_pcm e (drop 4 a.payload))
                                  (inflight + 1 - 1) (a.meanwhile w)).replies)
                          (leaves w))))
            (λ _. none_told w))

  take_frame-Logs :
      (f : Frame) (inflight : ℕ) (w : World)
      → LeavesBlocks f
      → Logs w (take_frame e job_id f inflight w)
  unfolding take_frame told
  take_frame-Logs (audio a) inflight w leaves = take_audio-Logs a inflight w leaves
  take_frame-Logs finish inflight w leaves = none_told w
  take_frame-Logs ping inflight w leaves = none_told w
  take_frame-Logs other inflight w leaves = none_told w
  take_frame-Logs malformed inflight w leaves = none_told w
  take_frame-Logs disconnect inflight w leaves = none_told w

  -- The transcript grows by exactly the blocks that the client is told of, in that order, if nobody
  -- else writes blocks meanwhile.
  pub serve-told :
      (fs : List Frame) (inflight : ℕ) (w : World)
      → All LeavesBlocks fs
      → let r = serve e job_id fs inflight w in r.1.0.blocks ≡ w.blocks ++ told r.0
  unfolding serve told
  serve-told [] inflight w leaves = none_told w
  serve-told (f ∷ fs) inflight w leaves =
      let t = take_frame e job_id f inflight w in
      let x = take_frame-Logs f inflight w leaves.0 in
      let rest = serve-told fs t.inflight t.world leaves.1 in
      if_holds (λ (r : List Reply × (World × Bool)). r.1.0.blocks ≡ w.blocks ++ told r.0) t.goes_on
        _ _
        (λ _.
          rest
          ∙ (ap (λ z. z ++ told (serve e job_id fs t.inflight t.world).0) x
              ∙ (append_assoc w.blocks (told t.replies) _
                  ∙ ap (λ z. w.blocks ++ z) (sym (told-append t.replies _)))))
        (λ _. x)
