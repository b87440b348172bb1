-- ===== src/Storage.antt =====
-- app/storage.py: the upload of a file, chunk by chunk, and the files of the audio folder.
use text.Mathlib.Text.{◌==◌ as str_eq}
use text.Mathlib.TextPositions.{eq_refl}
use voice_2_text.Prelude.{
  is_some, exists-delete, true, false, ℕ, ◌+◌, ◌*◌, ◌==◌, ltb, ◌≡◌, ◌≤◌, Bool, ◌&&◌, not, Option,
  none, some, List, [], ◌∷◌, String, delete_where, exists, if◌then◌else◌, arith, sum,
}
use voice_2_text.Database.{StoredName, World}
use voice_2_text.Config.{Config, contains}

unfoldable pub same_name : StoredName → StoredName → Bool
same_name a b = a.stem == b.stem && str_eq a.ext b.ext

-- path.exists()
unfoldable pub on_disk : World → StoredName → Bool
on_disk w name = exists (same_name name) w.audio

-- path.unlink(missing_ok=True)
unfoldable pub unlink : StoredName → World → World
unlink name w = record w { audio = delete_where (same_name name) w.audio }

-- path.open("wb")
unfoldable pub create : StoredName → World → World
unfolding unlink
create name w = record w { audio = name ∷ (unlink name w).audio }

-- The `while` loop over the chunks, each given by its length: the size, or the limit is passed.
unfoldable pub stream : ℕ → ℕ → List ℕ → Option ℕ
stream limit size [] = some size
stream limit size (chunk ∷ chunks) =
    let rest = stream limit (size + chunk) chunks in if ltb limit (size + chunk) then none else rest

-- `none` is an `UploadError`.
unfoldable pub save_upload : Config → World → ℕ → String → List ℕ → Option (StoredName × ℕ) × World
unfolding stream create unlink
save_upload config w job_id ext chunks =
    let name : StoredName = record { stem = job_id; ext = ext } in
    let opened = create name w in
    if contains ext config.allowed_extensions
    then elim (stream (config.max_upload_mb * 1024 * 1024) 0 chunks) [
      | none ↦ (none, unlink name opened)
      | some size ↦ if size == 0 then (none, unlink name opened) else (some (name, size), opened)
    ]
    else (none, w)

stream-lem :
    (limit size : ℕ) (chunks : List ℕ)
    → size ≤ limit
    → stream limit size chunks
      ≡ (if ltb limit (size + sum chunks) then none else some (size + sum chunks))
unfolding stream
stream-lem limit size [] h = ground arith
stream-lem limit size (chunk ∷ chunks) h = ground (arith, stream-lem limit (size + chunk) chunks)

-- After an upload with an allowed extension its file is on the disk exactly if it was accepted.
on_disk-save_upload :
    (config : Config) (w : World) (job_id : ℕ) (ext : String) (chunks : List ℕ)
    → contains ext config.allowed_extensions ≡ true
    → on_disk (save_upload config w job_id ext chunks).1 (record { stem = job_id; ext = ext })
      ≡ is_some (save_upload config w job_id ext chunks).0
unfolding save_upload on_disk exists same_name
on_disk-save_upload config w job_id ext chunks h = ground (
  arith,
  eq_refl ext,
  exists-delete (same_name (record { stem = job_id; ext = ext }))
      (create (record { stem = job_id; ext = ext }) w).audio,
)

-- An upload is accepted exactly if its extension is allowed and it is neither empty nor over the
-- limit; the reply is its name under the new id and its full size. With an allowed extension that
-- file is on the disk afterwards exactly if the upload was accepted; with another one the disk stays
-- as it was.
pub save_upload-eq-some :
    (config : Config) (w : World) (job_id : ℕ) (ext : String) (chunks : List ℕ)
    → let name : StoredName = record { stem = job_id; ext = ext } in
      let r = save_upload config w job_id ext chunks in
      (r.0 ≡ (
        if contains ext config.allowed_extensions
          && (ltb 0 (sum chunks) && not (ltb (config.max_upload_mb * 1024 * 1024) (sum chunks)))
        then some (name, sum chunks)
        else none))
      × (contains ext config.allowed_extensions ≡ true → on_disk r.1 name ≡ is_some r.0)
      × (contains ext config.allowed_extensions ≡ false → r.1 ≡ w)
unfolding save_upload
save_upload-eq-some config w job_id ext chunks = (
  ground (arith, stream-lem (config.max_upload_mb * 1024 * 1024) 0 chunks),
  on_disk-save_upload config w job_id ext chunks,
  λ other. ground arith,
)
