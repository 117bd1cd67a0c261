-- ===== src/Api/Activities.antt =====
-- What an activity of Teams can do, on every branch.
use claw_mux.Base.{
  ◌≡◌, refl, sym, ap, ◌∙◌, inl, inr, ◌⊎◌, Bool, true, false, ◌||◌, Option, none, some, List, [],
  ◌∷◌, All, any, is_empty, if◌then◌else◌, if-both, Bool-cases, text_key, Text, codes, Result, ok,
  err, strip, starts_with, remove_prefix,
}
use claw_mux.Web.Json.{Json, get}
use claw_mux.Web.Text.{split_csv}
use claw_mux.Teams.Auth.{
  Settings, AuthError, disabled, missing_token, empty_token, audience_of, bearer, try_urls,
  verify_header, verify_inbound_token, is_allowed_service_url,
}
use claw_mux.Teams.Adapter.{Adapter}
use claw_mux.Api.Teams.{
  Activity, Outcome, read_activity, file_names, with_files, with_address, registered, by_address,
  with_activity, is_message, by_type, with_body, verified, teams_webhook_messages,
}

module _ (render : Json → Text) (is_valid : Text → Bool)
    (accepts : Text → Text → Text → List Text → Bool) (s : Settings) where
  -- One of the configured key URLs verifies the token of the header, for a configured audience.
  abbrev pub IsVerified : Option Text → Type 0
  IsVerified authorization =
      (header : Text) × (authorization ≡ some header)
      × (starts_with header bearer ≡ true)
      × (is_empty (audience_of s) ≡ false)
      × (any
            (λ url.
              accepts url (strip (remove_prefix bearer header)) (audience_of s)
                (split_csv s.teams_allowed_issuers))
            (split_csv s.teams_jwks_urls)
          ≡ true)

  clash : {r : Result AuthError (Unit {0})} {e : AuthError} → r ≡ err e → r ≡ ok tt → ⊥
  clash h k = cc

  try_urls-any :
      (urls : List Text) (token : Text)
      → try_urls accepts s urls token ≡ ok tt
      → any (λ url. accepts url token (audience_of s) (split_csv s.teams_allowed_issuers)) urls
        ≡ true
  unfolding try_urls
  try_urls-any [] token h = elim (clash refl h) [ ]
  try_urls-any (url ∷ urls) token h =
      elim (Bool-cases (accepts url token (audience_of s) (split_csv s.teams_allowed_issuers))) [
        | inl e ↦ rw e refl
        | inr e ↦ rw e (
            try_urls-any urls token
              (sym (ap (λ b. if b then ok tt else try_urls accepts s urls token) e) ∙ h))
      ]

  if-err :
      (b : Bool) (e : AuthError) {r : Result AuthError (Unit {0})}
      → (if b then err e else r) ≡ ok tt
      → (b ≡ false) × (r ≡ ok tt)
  if-err true e h = elim (clash refl h) [ ]
  if-err false e h = (refl, h)

  if-not_err :
      (b : Bool) (e : AuthError) {r : Result AuthError (Unit {0})}
      → (if b then r else err e) ≡ ok tt
      → (b ≡ true) × (r ≡ ok tt)
  if-not_err true e h = (refl, h)
  if-not_err false e h = elim (clash refl h) [ ]

  verify_header-IsVerified :
      (o : Option Text)
      → is_empty (audience_of s) ≡ false
      → verify_header accepts s o ≡ ok tt
      → IsVerified o
  verify_header-IsVerified none e h = elim (clash refl h) [ ]
  verify_header-IsVerified (some header) e h =
      let (b, t) = if-not_err (starts_with header bearer) missing_token h in
      let (n, u) = if-err (is_empty (strip (remove_prefix bearer header))) empty_token t in
      (
        header,
        refl,
        b,
        e,
        try_urls-any (split_csv s.teams_jwks_urls) (strip (remove_prefix bearer header)) u,
      )

  inbound-IsVerified : (o : Option Text) → verify_inbound_token accepts s o ≡ ok tt → IsVerified o
  unfolding verify_inbound_token
  inbound-IsVerified o h =
      let (e, k) = if-err (is_empty (audience_of s)) disabled h in verify_header-IsVerified o e k

  -- The request has no effect.
  abbrev pub Idle : Option Adapter → Outcome → Type 0
  Idle a (r, b, es) = (b ≡ a) × (es ≡ [])

  -- The address of the activity is allowed and recorded, and what is dispatched is the activity's.
  abbrev pub Heard : Json → Option Adapter → Outcome → Type 0
  Heard j a (r, b, es) =
      (v : Activity) × (read_activity render is_valid accepts s j ≡ some v)
      × (is_allowed_service_url is_valid s v.service_url ≡ some true)
      × (b ≡ registered render is_valid accepts s v a)
      × All (λ e. (e.user_id ≡ v.user) × (e.channel_id ≡ v.conversation) × (e.text ≡ v.text)) es

  with_files-Heard :
      (j : Json) (a b : Option Adapter) (v : Activity) (o : Option (List Text))
      → read_activity render is_valid accepts s j ≡ some v
      → is_allowed_service_url is_valid s v.service_url ≡ some true
      → b ≡ registered render is_valid accepts s v a
      → Heard j a (with_files render is_valid accepts s b v o)
  with_files-Heard j a b v none e f g = (v, e, f, g, tt)
  with_files-Heard j a b v (some files) e f g = (v, e, f, g, ((refl, refl, refl), tt))

  abbrev Handled : Json → Option Adapter → Outcome → Type 0
  Handled j a o = Idle a o ⊎ Heard j a o

  with_address-Handled :
      (j : Json) (v : Activity) (a o : Option Adapter)
      → read_activity render is_valid accepts s j ≡ some v
      → is_allowed_service_url is_valid s v.service_url ≡ some true
      → registered render is_valid accepts s v a ≡ o
      → Handled j a (with_address render is_valid accepts s j v a o)
  with_address-Handled j v none none e f g =
      inr (with_files-Heard j none none v (file_names render is_valid accepts s j) e f refl)
  with_address-Handled j v none (some b) e f g = cc
  with_address-Handled j v (some a) none e f g = inl (refl, refl)
  with_address-Handled j v (some a) (some b) e f g =
      inr (
        with_files-Heard j (some a) (some b) v (file_names render is_valid accepts s j) e f (sym g))

  by_address-Handled :
      (j : Json) (v : Activity) (a : Option Adapter) (o : Option Bool)
      → read_activity render is_valid accepts s j ≡ some v
      → is_allowed_service_url is_valid s v.service_url ≡ o
      → Handled j a (by_address render is_valid accepts s j v a o)
  by_address-Handled j v a none e f = inl (refl, refl)
  by_address-Handled j v a (some false) e f = inl (refl, refl)
  by_address-Handled j v a (some true) e f =
      with_address-Handled j v a (registered render is_valid accepts s v a) e f refl

  with_activity-Handled :
      (j : Json) (a : Option Adapter) (o : Option Activity)
      → read_activity render is_valid accepts s j ≡ o
      → Handled j a (with_activity render is_valid accepts s j a o)
  with_activity-Handled j a none e = inl (refl, refl)
  with_activity-Handled j a (some v) e =
      if-both (Handled j a) (is_empty v.user || is_empty v.conversation || is_empty v.text)
        (inl (refl, refl))
        (by_address-Handled j v a (is_allowed_service_url is_valid s v.service_url) e refl)

  by_type-Handled :
      (j : Json) (a : Option Adapter) (o : Option Json)
      → Handled j a (by_type render is_valid accepts s j a o)
  by_type-Handled j a none = inl (refl, refl)
  by_type-Handled j a (some kind) =
      if-both (Handled j a) (is_message render is_valid accepts s kind)
        (with_activity-Handled j a (read_activity render is_valid accepts s j) refl)
        (inl (refl, refl))

  -- What a request did: nothing, or it was verified and its activity heard.
  abbrev pub Accepted : Option Text → Option Json → Option Adapter → Outcome → Type 0
  Accepted authorization body a o =
      Idle a o ⊎ (IsVerified authorization × ((j : Json) × (body ≡ some j) × Heard j a o))

  with_body-Accepted :
      (authorization : Option Text) (body : Option Json) (a : Option Adapter)
      → IsVerified authorization
      → Accepted authorization body a (with_body render is_valid accepts s body a)
  with_body-Accepted authorization none a v = inl (refl, refl)
  with_body-Accepted authorization (some j) a v =
      elim (by_type-Handled j a (get j (codes "type"))) [
        | inl i ↦ inl i
        | inr h ↦ inr (v, (j, refl, h))
      ]

  verified-Accepted :
      (authorization : Option Text) (body : Option Json) (a : Option Adapter)
      (r : Result AuthError (Unit {0}))
      → verify_inbound_token accepts s authorization ≡ r
      → Accepted authorization body a (verified render is_valid accepts s r body a)
  verified-Accepted authorization body a (err e) h = inl (refl, refl)
  verified-Accepted authorization body a (ok x) h =
      with_body-Accepted authorization body a (inbound-IsVerified authorization h)

  -- A request to the webhook of Teams has no effect, unless one of the configured key URLs verifies its token, for the
  -- configured audience and issuers, and the settings allow the address of its activity, which
  -- is then recorded with the adapter, if there is one; an event that is dispatched has the
  -- activity's sender, conversation and text.
  pub teams-Accepted :
      (authorization : Option Text) (body : Option Json) (a : Option Adapter)
      → Accepted authorization body a
          (teams_webhook_messages render is_valid accepts s authorization body a)
  unfolding teams_webhook_messages
  teams-Accepted authorization body a =
      verified-Accepted authorization body a (verify_inbound_token accepts s authorization) refl
