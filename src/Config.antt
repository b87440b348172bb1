-- ===== src/Config.antt =====
-- app/config.py: the settings that the modelled code reads, and their validation. The settings are
-- natural numbers.
pub mod Validate
use text.Mathlib.Text.{◌==◌ as str_eq}
use voice_2_text.Prelude.{ℕ, Bool, true, false, List, [], ◌∷◌, String, if◌then◌else◌}

pub record Config : Type 0 where
  pub default_tier : String
  pub enabled_tiers : List String
  pub language : String
  pub max_upload_mb : ℕ
  pub allowed_extensions : List String
  pub max_session_files : ℕ
  pub max_session_mb : ℕ
  pub retention_days : ℕ
  pub otp_ttl_seconds : ℕ
  pub auth_session_days : ℕ

-- `x in xs`
unfoldable pub contains : String → List String → Bool
contains x [] = false
contains x (y ∷ ys) = if str_eq x y then true else contains x ys
