-- ===== src/Api/Examples.antt =====
-- The theorems of the endpoints at concrete inputs.
use claw_mux.Base.{
  ◌≡◌, refl, sym, ap, ◌∙◌, ◌==◌, Bool, false, ◌&&◌, Option, none, some, List, [], ◌∷◌, Text, codes,
  contains, starts_with, list_eq, text_key, some-inj,
}
use claw_mux.Mapping.Storage.{empty_caches}
use claw_mux.Web.Json.{Json, str, obj, field, end, get_or, find_field}
use claw_mux.Teams.Auth.{Settings}
use claw_mux.Teams.Adapter.{Adapter, new}
use claw_mux.Api.Control.{Context, Body, Process, trigger, notify, reload_mappings}
use claw_mux.Api.Action.{proxy_mm_action}
use claw_mux.Api.Bitrix.{Request, payload_of, extract_inbound_token, bitrix_webhook_event}
use claw_mux.Api.Teams.{teams_webhook_messages}
use claw_mux.Api.Guarded.{endpoints_guarded}
use claw_mux.Api.Forms.{form_never_dispatches}
use claw_mux.Api.Activities.{Accepted, teams-Accepted}

abbrev context : Context
context = record {
  db = record {
    instance_ = [];
    app_user = [];
    user_identity = [];
    user_instance = [];
    user_channel = [];
    version = none;
  };
  api_token = codes "secret";
  ttl = 60;
  now = 0;
  later = 0;
}

abbrev req : Body
req = record {
  external_user_id = codes "e1";
  provider = codes "slack";
  text = codes "Hi";
  session_key = none;
}

abbrev process : Process
process = record { caches = empty_caches; tasks = [] }

abbrev render : Json → Text
render j = []

abbrev message : Json
message = obj (field (codes "PARAMS") (str (codes "x")) end)

abbrev click : Request
click = record {
  content_type = codes "application/json";
  json = some message;
  form = [];
  query = λ key. codes "guess";
}

wrong_token :
    (payload : Json) (t : Text)
    → payload_of click ≡ some payload
    → extract_inbound_token click payload ≡ some t
    → (t == codes "secret") ≡ false
unfolding contains starts_with extract_inbound_token get_or find_field list_eq
wrong_token payload t h k =
    ap (λ u. u == codes "secret")
      (sym (some-inj (ap (extract_inbound_token click) (some-inj h) ∙ k)))

endpoints_guarded_example :
    ((trigger context (codes "guess") req process).1 ≡ process)
    × ((notify context (codes "guess") req process).1 ≡ process)
    × ((reload_mappings context (codes "guess") process).1 ≡ process)
    × ((proxy_mm_action (λ j. none) (codes "secret") [] (codes "guess") (some message)).1 ≡ [])
    × ((bitrix_webhook_event render (codes "secret") [] click).1 ≡ [])
unfolding list_eq
endpoints_guarded_example =
    endpoints_guarded context (codes "guess") req process (λ j. none) (codes "secret") []
      (codes "guess") (some message) render [] click refl refl wrong_token

abbrev form : Request
form = record {
  content_type = codes "application/x-www-form-urlencoded";
  json = none;
  form =
      (codes "data[PARAMS][MESSAGE]", codes "Hi") ∷ (codes "event", codes "ONIMBOTMESSAGEADD") ∷ [];
  query = λ key. codes "secret";
}

form_never_dispatches_example : (bitrix_webhook_event render (codes "secret") [] form).1 ≡ []
unfolding contains starts_with
form_never_dispatches_example = form_never_dispatches render (codes "secret") [] form refl

abbrev settings : Settings
settings = record {
  teams_jwt_audience = [];
  teams_app_id = codes "app";
  teams_allowed_issuers = codes "https://api.botframework.com";
  teams_jwks_urls = codes "https://login.botframework.com/keys";
  teams_allowed_service_url_hosts = codes "trafficmanager.net";
}

abbrev activity : Json
activity = obj (
    field (codes "type") (str (codes "message")) (
      field (codes "from") (obj (field (codes "id") (str (codes "u1")) end)) (
        field (codes "conversation") (obj (field (codes "id") (str (codes "c1")) end)) (
          field (codes "text") (str (codes "Hi")) (
            field (codes "serviceUrl") (str (codes "https://smba.trafficmanager.net/emea/"))
              end)))))

abbrev accepts : Text → Text → Text → List Text → Bool
accepts url token audience issuers = token == codes "good" && audience == codes "app"

abbrev adapter : Option Adapter
adapter = some (new (codes "app") (codes "password"))

teams-Accepted_example :
    Accepted render
      (λ netloc. false)
      accepts
      settings
      (some (codes "Bearer good"))
      (some activity)
      adapter
      (teams_webhook_messages render
        (λ netloc. false)
        accepts
        settings
        (some (codes "Bearer good"))
        (some activity)
        adapter)
teams-Accepted_example =
    teams-Accepted render (λ netloc. false) accepts settings (some (codes "Bearer good"))
      (some activity) adapter
