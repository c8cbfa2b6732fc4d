-- ===== src/Config/Tests.antt =====
-- The default configuration with a secret from the environment.
use goscratch.Base.{◌≡◌, ◌≢◌, ◌≤◌, ◌↔◌, none, if◌then◌else◌, Str, lit, str_eq, length}
use goscratch.Config.{Fields, apply_env_overrides, text_at, validate, placeholder_jwt_secret}
use goscratch.Config.Shape.{new_config}
use goscratch.Config.Validation.{validate_iff}

abbrev getenv : Str → Str
getenv tag =
    if str_eq tag (lit "JWT_SECRET") then lit "0123456789abcdef0123456789abcdef" else lit ""

abbrev configured : Fields
configured = apply_env_overrides getenv new_config

validate_iff_example : (validate configured ≡ none) ↔ (
    (32 ≤ length (text_at (lit "jwt") (lit "secret") configured))
    × (text_at (lit "jwt") (lit "secret") configured ≢ placeholder_jwt_secret)
    × (text_at (lit "jwt") (lit "issuer") configured ≢ lit "")
    × (text_at (lit "jwt") (lit "audience") configured ≢ lit ""))
validate_iff_example = validate_iff configured
