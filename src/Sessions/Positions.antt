-- ===== src/Sessions/Positions.antt =====
-- app/sessions.py: the positions that `reorder` writes.
use voice_2_text.Prelude.{
  ℕ, ◌+◌, ◌==◌, ◌≡◌, ◌≢◌, refl, Bool, true, false, Option, some, List, [], ◌∷◌, map, All, All₂,
  get_elem?, select, update_where, arith, if◌then◌else◌, ==_refl,
}
use voice_2_text.Http.{ok}
use voice_2_text.Database.{AudioClip, World, clip_of_job}
use voice_2_text.Auth.{Account}
use voice_2_text.Sessions.Reorder.{
  member, subset, all_different, position_of, placed, reorder, reorder_body,
}

-- The clip is listed at its position, counted from 1.
abbrev pub IsListed : List ℕ → AudioClip → Type 0
IsListed ids c = (k : ℕ) × (c.position ≡ k + 1) × (get_elem? ids k ≡ some c.id)

position_of-member :
    (ids : List ℕ) (x : ℕ)
    → member x ids ≡ true
    → (k : ℕ) × (position_of ids x ≡ k + 1) × (get_elem? ids k ≡ some x)
unfolding member position_of
position_of-member [] x h = absurd (ground arith)
position_of-member (y ∷ ys) x h = go (y == x) refl (position_of-member ys x)
  where
    Goal : Type 0
    Goal = (k : ℕ) × (position_of (y ∷ ys) x ≡ k + 1) × (get_elem? (y ∷ ys) k ≡ some x)

    go :
        (b : Bool)
        → (y == x) ≡ b
        → (member x ys ≡ true → (k : ℕ) × (position_of ys x ≡ k + 1) × (get_elem? ys k ≡ some x))
        → Goal
    go true e rest = (0, ground arith, ground arith)
    go false e rest =
        let r = rest (ground arith) in (r.0 + 1, ground (arith, r.1), ground (arith, r.2))

subset-member :
    (ids : List ℕ) (job_id : ℕ) (cs : List AudioClip)
    → subset (map (λ c. c.id) (select (clip_of_job job_id) cs)) ids ≡ true
    → All (λ c. c.job_id ≡ job_id → member c.id ids ≡ true) cs
unfolding subset select clip_of_job
subset-member ids job_id [] h = tt
subset-member ids job_id (c ∷ cs) h =
    (λ e. ground (arith, ==_refl job_id), subset-member ids job_id cs (ground arith))

reorder-eq-ok :
    (user : Option Account) (job_id : ℕ) (ids : List ℕ) (w : World) (r : Unit {0})
    → (reorder user job_id ids w).0 ≡ ok r
    → let clips = map (λ c. c.id) (select (clip_of_job job_id) w.clips) in
      (all_different ids ≡ true)
      × (subset ids clips ≡ true)
      × (subset clips ids ≡ true)
      × ((reorder user job_id ids w).1.clips
          ≡ update_where (clip_of_job job_id) (placed ids) w.clips)
unfolding reorder reorder_body
reorder-eq-ok user job_id ids w r h = ground arith

-- A new order is accepted only if it lists every clip of the session, each once and nothing else.
-- Then each clip of the session has the position, counted from 1, at which it is listed, and the
-- other clips are unchanged, as are the ids and files of all of them.
pub reorder-IsListed :
    (user : Option Account) (job_id : ℕ) (ids : List ℕ) (w : World) (r : Unit {0})
    → (reorder user job_id ids w).0 ≡ ok r
    → let t = (reorder user job_id ids w).1 in
      (all_different ids ≡ true)
      × (subset ids (map (λ c. c.id) (select (clip_of_job job_id) w.clips)) ≡ true)
      × All₂
          (λ c d.
            (c.job_id ≡ job_id → IsListed ids d)
            × (c.job_id ≢ job_id → d ≡ c)
            × (d.id ≡ c.id)
            × (d.stored_name ≡ c.stored_name))
          w.clips
          t.clips
unfolding placed clip_of_job update_where
reorder-IsListed user job_id ids w r h =
    let x = reorder-eq-ok user job_id ids w r h in
    (x.0, x.1, rw x.3 (go w.clips (subset-member ids job_id w.clips x.2)))
  where
    R : AudioClip → AudioClip → Type 0
    R c d =
        (c.job_id ≡ job_id → IsListed ids d)
        × (c.job_id ≢ job_id → d ≡ c)
        × (d.id ≡ c.id)
        × (d.stored_name ≡ c.stored_name)

    row :
        (c : AudioClip)
        → (c.job_id ≡ job_id → member c.id ids ≡ true)
        → (b : Bool) → clip_of_job job_id c ≡ b
        → R c (if b then placed ids c else c)
    row c listed true e =
        (λ s. position_of-member ids c.id (listed s), λ n. absurd (n (ground arith)), refl, refl)
    row c listed false e = (λ s. absurd (ground (arith, ==_refl job_id)), λ n. refl, refl, refl)

    go :
        (cs : List AudioClip)
        → All (λ c. c.job_id ≡ job_id → member c.id ids ≡ true) cs
        → All₂ R cs (update_where (clip_of_job job_id) (placed ids) cs)
    go [] a = All₂.nil
    go (c ∷ cs) a = All₂.cons (row c a.0 (clip_of_job job_id c) refl) (go cs a.1)
