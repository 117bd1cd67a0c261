-- ===== src/Teams/Auth.antt =====
-- The token of a request, and the address that it asks to be answered at. PyJWT is a parameter: with
-- the signing keys of a URL, a token is accepted for an audience and issuers or not.
use claw_mux.Base.{
  Bool, false, not, ◌||◌, Option, none, some, List, [], ◌∷◌, ◌++◌, any, map, is_empty,
  if◌then◌else◌, ◌==◌, text_key, Text, codes, strip, lower, starts_with, ends_with, remove_prefix,
  Result, ok, err,
}
use claw_mux.Web.Text.{split_csv}
use claw_mux.Web.Urls.{urlparse}

pub record Settings : Type 0 where
  pub teams_jwt_audience : Text
  pub teams_app_id : Text
  pub teams_allowed_issuers : Text
  pub teams_jwks_urls : Text
  pub teams_allowed_service_url_hosts : Text

-- A TeamsAuthError by what it says.
pub data AuthError : Type 0 where
  disabled missing_token empty_token verification_failed : AuthError

abbrev pub or_else : Text → Text → Text
or_else a b = if is_empty a then b else a

unfoldable pub audience_of : Settings → Text
audience_of s = or_else (strip s.teams_jwt_audience) (strip s.teams_app_id)

abbrev pub bearer : Text
bearer = codes "Bearer "

-- `accepts url token audience issuers`: the key is found and `jwt.decode` does not raise.
module _ (accepts : Text → Text → Text → List Text → Bool) (s : Settings) where
  unfoldable pub try_urls : List Text → Text → Result AuthError (Unit {0})
  unfolding audience_of
  try_urls [] token = err verification_failed
  try_urls (url ∷ urls) token =
      let rest = try_urls urls token in
      if accepts url token (audience_of s) (split_csv s.teams_allowed_issuers) then ok tt else rest

  abbrev pub verify_token : Text → Result AuthError (Unit {0})
  verify_token token =
      if is_empty token then err empty_token else try_urls (split_csv s.teams_jwks_urls) token

  abbrev pub verify_header : Option Text → Result AuthError (Unit {0})
  verify_header none = err missing_token
  verify_header (some header) =
      if starts_with header bearer
      then verify_token (strip (remove_prefix bearer header))
      else err missing_token

  unfoldable pub verify_inbound_token : Option Text → Result AuthError (Unit {0})
  unfolding try_urls
  verify_inbound_token authorization =
      if is_empty (audience_of s) then err disabled else verify_header authorization

-- A host of the list, or one below it.
abbrev pub is_listed : Text → List Text → Bool
is_listed host hosts =
    any (λ allowed. host == allowed || ends_with host (codes "." ++ allowed)) hosts

abbrev pub is_allowed_address : Settings → Text × Text → Bool
is_allowed_address s (scheme, host) =
    if not (scheme == codes "https")
    then false
    else if is_empty (lower host)
    then false
    else is_listed (lower host) (map lower (split_csv s.teams_allowed_service_url_hosts))

-- None is the ValueError of `urlparse`, whose check of unusual hosts is `is_valid`.
unfoldable pub is_allowed_service_url : (Text → Bool) → Settings → Text → Option Bool
is_allowed_service_url is_valid s url = elim (urlparse is_valid url) [
  | none ↦ none
  | some address ↦ some (is_allowed_address s address)
]
