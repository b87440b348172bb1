-- ===== src/Config/Validate.antt =====
-- app/config.py: `validate`, the checks of the settings at the start of a process.
use text.Mathlib.Text.{◌==◌ as str_eq}
use voice_2_text.Config.{contains}
use voice_2_text.Prelude.{
  ℕ, zero, suc, ◌+◌, ◌-◌, ◌*◌, ltb, ◌≡◌, ◌≢◌, ◌≤◌, refl, Bool, true, false, not, ◌&&◌, ◌||◌, Option,
  none, some, List, [], ◌∷◌, ◌++◌, String, All, arith, if◌then◌else◌,
}

-- The settings that are checked, and `os.cpu_count()`.
pub record Deployment : Type 0 where
  pub worker_count : ℕ
  pub worker_cpu_threads : ℕ
  pub reserved_cores : ℕ
  pub cores : ℕ
  pub live_enabled : Bool
  pub live_tier : String
  pub live_cpu_threads : ℕ
  pub default_tier : String
  pub enabled_tiers : List String
  pub asr_backend : String
  pub model_fast : String
  pub model_accurate : String
  pub diarization_enabled : Bool
  pub diarization_models : List String

pub data ConfigError : Type 0 where
  worker_count worker_cpu_threads oversubscribed live_tier default_tier unknown_tier : ConfigError
  model_missing diarization_missing : ConfigError

pub data Warning : Type 0 where
  live_latency stub : Warning
  idle : ℕ → Warning
  no_weights : String → Warning

pub data Checked : Type 0 where
  warnings : List Warning → Checked
  error : ConfigError → Checked

unfoldable pub resolve_model_path : Deployment → String → String
resolve_model_path d tier = if str_eq tier "accurate" then d.model_accurate else d.model_fast

unfoldable pub cpu_budget : Deployment → ℕ × ℕ
cpu_budget d = (d.worker_count * d.worker_cpu_threads, d.cores)

abbrev pub is_tier : String → Bool
is_tier tier = str_eq tier "fast" || str_eq tier "accurate"

unfoldable pub all_tiers : List String → Bool
all_tiers [] = true
all_tiers (t ∷ ts) = let rest = all_tiers ts in is_tier t && rest

unfoldable pub all_exist : (String → Bool) → List String → Bool
all_exist exists [] = true
all_exist exists (p ∷ ps) = let rest = all_exist exists ps in exists p && rest

-- The loop over the models; `none` where one of them is missing.
unfoldable pub weights :
    Deployment → (String → Bool) → (String → Bool) → List String → Option (List Warning)
weights d exists has_bin [] = some []
weights d exists has_bin (t ∷ ts) =
    let rest = weights d exists has_bin ts in
    let path = resolve_model_path d t in
    if exists path
    then (elim rest [
      | none ↦ none
      | some ws ↦ some (if has_bin path then ws else no_weights path ∷ ws)
    ])
    else none

abbrev pub when : Bool → Warning → List Warning
when true w = w ∷ []
when false w = []

-- the warnings after all checks
unfoldable pub late_warnings : Deployment → ℕ → ℕ → List Warning
late_warnings d requested usable =
    when (ltb requested usable) (idle (usable - requested))
    ++ when (str_eq d.asr_backend "stub") stub

-- the checks of a worker: the models, then the diarization
unfoldable pub check_models :
    Deployment → Bool → (String → Bool) → (String → Bool) → Option (List Warning)
check_models d is_worker exists has_bin =
    if is_worker && str_eq d.asr_backend "faster_whisper"
    then weights d exists has_bin d.enabled_tiers
    else some []

-- A difference of cores below 0 is 0 here, which is less than any pool too.
unfoldable pub validate : Deployment → Bool → (String → Bool) → (String → Bool) → Checked
validate d is_worker exists has_bin =
    let requested = (cpu_budget d).0 in
    let usable = (cpu_budget d).1 - d.reserved_cores in
    if ltb d.worker_count 1
    then error ConfigError.worker_count
    else if ltb d.worker_cpu_threads 1
    then error ConfigError.worker_cpu_threads
    else if ltb usable requested
    then error ConfigError.oversubscribed
    else if d.live_enabled && not (contains d.live_tier d.enabled_tiers)
    then error ConfigError.live_tier
    else if not (contains d.default_tier d.enabled_tiers)
    then error ConfigError.default_tier
    else if not (all_tiers d.enabled_tiers)
    then error ConfigError.unknown_tier
    else elim (check_models d is_worker exists has_bin) [
      | none ↦ error ConfigError.model_missing
      | some ws ↦
          if is_worker && (d.diarization_enabled && not (all_exist exists d.diarization_models))
          then error ConfigError.diarization_missing
          else warnings (
              when (d.live_enabled && ltb (cpu_budget d).1 (requested + d.live_cpu_threads))
                live_latency
              ++ (ws ++ late_warnings d requested usable))
    ]

weights-eq-some :
    (d : Deployment) (exists has_bin : String → Bool) (tiers : List String) (ws : List Warning)
    → weights d exists has_bin tiers ≡ some ws
    → All (λ t. exists (resolve_model_path d t) ≡ true) tiers
unfolding weights
weights-eq-some d exists has_bin [] ws h = tt
weights-eq-some d exists has_bin (t ∷ ts) ws h =
    go (weights d exists has_bin ts) refl (weights-eq-some d exists has_bin ts)
  where
    go :
        (o : Option (List Warning))
        → weights d exists has_bin ts ≡ o
        → ((vs : List Warning)
            → weights d exists has_bin ts ≡ some vs
            → All (λ u. exists (resolve_model_path d u) ≡ true) ts)
        → All (λ u. exists (resolve_model_path d u) ≡ true) (t ∷ ts)
    go none e rest = absurd (ground arith)
    go (some vs) e rest = (ground arith, rest vs e)

tiers-All : (ts : List String) → all_tiers ts ≡ true → All (λ t. is_tier t ≡ true) ts
unfolding all_tiers
tiers-All [] h = tt
tiers-All (t ∷ ts) h = (ground arith, tiers-All ts (ground arith))

validate_checks :
    (d : Deployment) (is_worker : Bool) (exists has_bin : String → Bool) (ws : List Warning)
    → validate d is_worker exists has_bin ≡ warnings ws
    → (ltb d.worker_count 1 ≡ false)
      × (ltb d.worker_cpu_threads 1 ≡ false)
      × (ltb (d.cores - d.reserved_cores) (d.worker_count * d.worker_cpu_threads) ≡ false)
      × (contains d.default_tier d.enabled_tiers ≡ true)
      × (all_tiers d.enabled_tiers ≡ true)
      × (check_models d is_worker exists has_bin ≢ none)
unfolding validate cpu_budget
validate_checks d is_worker exists has_bin ws h =
    (ground arith, ground arith, ground arith, ground arith, ground arith, λ n. ground arith)

pool_fits :
    (workers threads reserved cores : ℕ)
    → 1 ≤ workers
    → 1 ≤ threads
    → ltb (cores - reserved) (workers * threads) ≡ false
    → workers * threads + reserved ≤ cores
pool_fits zero threads reserved cores h k f = absurd (omega arith)
pool_fits (suc workers) zero reserved cores h k f = absurd (omega arith)
pool_fits (suc workers) (suc threads) reserved cores h k f = ground arith

-- A process starts only with settings that fit the machine: a pool of at least one worker with at
-- least one thread each, whose threads and the reserved cores together are no more than the cores;
-- a default tier that is enabled, and no unknown tier.
pub validate-fits :
    (d : Deployment) (is_worker : Bool) (exists has_bin : String → Bool) (ws : List Warning)
    → validate d is_worker exists has_bin ≡ warnings ws
    → (1 ≤ d.worker_count)
      × (1 ≤ d.worker_cpu_threads)
      × (d.worker_count * d.worker_cpu_threads + d.reserved_cores ≤ d.cores)
      × (contains d.default_tier d.enabled_tiers ≡ true)
      × All (λ t. is_tier t ≡ true) d.enabled_tiers
validate-fits d is_worker exists has_bin ws h =
    let x = validate_checks d is_worker exists has_bin ws h in
    (
      ground (arith, x.0),
      ground (arith, x.1),
      pool_fits d.worker_count d.worker_cpu_threads d.reserved_cores d.cores (ground (arith, x.0))
          (ground (arith, x.1)) x.2,
      x.3,
      tiers-All d.enabled_tiers x.4,
    )

-- A worker with the real backend starts only if the model of every enabled tier is on the disk.
pub validate-models :
    (d : Deployment) (exists has_bin : String → Bool) (ws : List Warning)
    → validate d true exists has_bin ≡ warnings ws
    → str_eq d.asr_backend "faster_whisper" ≡ true
    → All (λ t. exists (resolve_model_path d t) ≡ true) d.enabled_tiers
validate-models d exists has_bin ws h real = go (weights d exists has_bin d.enabled_tiers) refl
  where
    x : check_models d true exists has_bin ≢ none
    x = (validate_checks d true exists has_bin ws h).5

    go :
        (o : Option (List Warning))
        → weights d exists has_bin d.enabled_tiers ≡ o
        → All (λ t. exists (resolve_model_path d t) ≡ true) d.enabled_tiers
    go none e = absurd (x (unfold check_models in ground arith))
    go (some vs) e = weights-eq-some d exists has_bin d.enabled_tiers vs e
