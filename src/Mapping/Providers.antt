-- ===== src/Mapping/Providers.antt =====
-- The providers that routing supports.
use claw_mux.Base.{
  Bool, List, [], ◌∷◌, any, if◌then◌else◌, ◌==◌, text_key, Text, codes, strip, lower, Result, ok,
  err,
}

abbrev pub default_provider : Text
default_provider = codes "mattermost"

abbrev pub supported_providers : List Text
supported_providers =
    codes "mattermost"
    ∷ codes "telegram"
    ∷ codes "bitrix"
    ∷ codes "slack"
    ∷ codes "vk_teams"
    ∷ codes "teams"
    ∷ []

pub data Failure : Type 0 where
  unsupported_provider : Text → Failure
  instance_not_found : Text → Failure
  integrity : Failure  -- a constraint of the database is violated

abbrev pub is_supported : Text → Bool
is_supported p = any (λ q. p == q) supported_providers

unfoldable pub validate_provider : Text → Result Failure Text
validate_provider provider =
    let normalized = lower (strip provider) in
    if is_supported normalized then ok normalized else err (unsupported_provider provider)
