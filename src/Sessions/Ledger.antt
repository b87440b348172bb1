-- ===== src/Sessions/Ledger.antt =====
-- app/sessions.py: clips added and removed in any order.
use voice_2_text.Prelude.{
  ℕ, ◌≡◌, ◌≢◌, refl, sym, Option, All, All-map, Distinct, Pairwise-append, Pairwise-delete, ap,
  subst, ◌∙◌, ◌==◌,
}
use voice_2_text.Http.{ok}
use voice_2_text.Config.{Config}
use voice_2_text.Database.{StoredName, AudioClip, World}
use voice_2_text.Auth.{Account}
use voice_2_text.Jobs.{Upload}
use voice_2_text.Sessions.Clips.{append_clip_body, remove_clip_body, new_clip}
use voice_2_text.Sessions.Quota.{append_clip_body-eq-ok}
use voice_2_text.Sessions.Booking.{
  Booked, append_clip_body-Booked, remove_clip_body-Booked, remove_clip_body-eq-ok,
}

-- The transactions of one session that have succeeded, one after the other; a new clip has a new id.
pub data Ledger (config : Config) (job_id : ℕ) (w : World) : World → Type 0 where
  start : Ledger config job_id w w
  append :
      {v t : World} (user : Option Account) (cid block_id : ℕ) (upload : Upload) (name : StoredName)
      (size ms : ℕ) (clip : AudioClip)
      → All (λ c. c.id ≢ cid) v.clips
      → append_clip_body config user job_id cid block_id upload name size ms v ≡ ok (clip, t)
      → Ledger config job_id w v
      → Ledger config job_id w t
  remove :
      {v t : World} (user : Option Account) (clip_id : ℕ) (clip : AudioClip)
      → remove_clip_body user job_id clip_id v ≡ ok (clip, t)
      → Ledger config job_id w v
      → Ledger config job_id w t

Ledger-kept :
    (config : Config) (job_id : ℕ) (w t : World)
    → Distinct (λ c. c.id) w.clips
    → Booked job_id w
    → Ledger config job_id w t
    → Distinct (λ c. c.id) t.clips × Booked job_id t
Ledger-kept config job_id w t d b start = (d, b)
Ledger-kept config job_id w t d b
      (append {v = v} user cid block_id upload name size ms clip new h past) =
    let k = Ledger-kept config job_id w v d b past in
    let x = append_clip_body-eq-ok config user job_id cid block_id upload name size ms v clip t h in
    let c : clip.id ≡ cid = ap (λ z. z.id) x.4 ∙ (unfold new_clip in refl) in
    let apart : All (λ (e : AudioClip). clip.id ≢ e.id) v.clips =
      All-map v.clips (λ e (n : e.id ≢ cid) (same : clip.id ≡ e.id). n (sym same ∙ c)) new in
    (
      subst (λ z. Distinct (λ e. e.id) z.clips) (sym x.5)
          (Pairwise-append (λ (e f : AudioClip). f.id ≢ e.id) v.clips clip k.0 apart),
      append_clip_body-Booked config user job_id cid block_id upload name size ms v clip t h k.1,
    )
Ledger-kept config job_id w t d b (remove {v = v} user clip_id clip h past) =
    let k = Ledger-kept config job_id w v d b past in
    let x = remove_clip_body-eq-ok user job_id clip_id v clip t h in
    (
      subst (λ z. Distinct (λ e. e.id) z.clips) (sym x.2)
          (Pairwise-delete (λ (e f : AudioClip). f.id ≢ e.id) (λ c. c.id == clip.id) v.clips k.0),
      remove_clip_body-Booked user job_id clip_id v clip t k.0 h k.1,
    )

-- The size of a session is always the sum of the sizes of its clips: clips added, each under a new
-- id, and removed in any order keep it so, where it was so before and the ids were different.
pub Ledger-Booked :
    (config : Config) (job_id : ℕ) (w t : World)
    → Distinct (λ c. c.id) w.clips
    → Booked job_id w
    → Ledger config job_id w t
    → Booked job_id t
Ledger-Booked config job_id w t d b past = (Ledger-kept config job_id w t d b past).1
