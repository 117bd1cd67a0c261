-- ===== src/Api/Bitrix.antt =====
-- `bitrix_webhook_event`: a message of Bitrix24. A body that is no JSON is a form: a dictionary of texts.
use claw_mux.Base.{
  Bool, true, false, not, ◌&&◌, ◌||◌, Option, none, some, List, [], ◌∷◌, is_empty, if◌then◌else◌,
  ◌==◌, text_key, Text, codes, strip, contains,
}
use claw_mux.Base.Dict.{Dict}
use claw_mux.Web.Json.{Json, Fields, str, obj, field, end, truthy, get, or_else, str_of, ◌>>=◌}
use claw_mux.Api.Guard.{compare_digest, Reply, refused, crashed, done}

pub record Request : Type 0 where
  pub content_type : Text
  pub json : Option Json  -- none where the body is no JSON
  pub form : Dict Text Text
  pub query : Text → Text  -- "" for a missing parameter

pub record Event : Type 0 where
  pub user_id : Text
  pub channel_id : Text
  pub text : Text
  pub post_id : Text

pub data Status : Type 0 where
  ignored_bot_own_message ignored_empty received : Status

abbrev pub fields_of : Dict Text Text → Fields
fields_of [] = end
fields_of ((k, t) ∷ form) = field k (str t) (fields_of form)

abbrev pub payload_of : Request → Option Json
payload_of r =
    if contains r.content_type (codes "application/json")
    then r.json
    else some (obj (fields_of r.form))

abbrev pub first_of : List Text → Text
first_of [] = []
first_of (t ∷ ts) = if is_empty t then first_of ts else t

abbrev pub query_token : Request → Text
query_token r =
    first_of
      (r.query (codes "secure") ∷ r.query (codes "access_token") ∷ r.query (codes "code") ∷ [])

abbrev pub text_token : Request → Json → Text
text_token r (str t) = if is_empty t then query_token r else t
text_token r j = query_token r

abbrev pub auth_token : Request → Json → Option Text
auth_token r (obj fs) = get (obj fs) (codes "access_token") >>= λ t. some (text_token r t)
auth_token r j = some (query_token r)

-- None is an exception: the payload is no dictionary.
unfoldable pub extract_inbound_token : Request → Json → Option Text
extract_inbound_token r payload = get payload (codes "auth") >>= auth_token r

-- `settings.bitrix_inbound_secret`, and `str(settings.bitrix_bot_id)`, "" for 0.
module _ (render : Json → Text) (secret bot_id : Text) where
  abbrev pub text_or_empty : Json → Text
  text_or_empty j = if truthy j then str_of render j else []

  -- data.get("PARAMS") or payload.get("PARAMS") or data
  abbrev pub choose : Json → Json → Option Json
  choose outer data_ =
      get data_ (codes "PARAMS") >>= λ own. some (or_else own (or_else outer data_))

  unfoldable pub params_of : Json → Option Json
  unfolding truthy
  params_of payload = do
    lower_data ← get payload (codes "data")
    upper_data ← get payload (codes "DATA")
    outer ← get payload (codes "PARAMS")
    choose outer (or_else lower_data (or_else upper_data (obj end)))

  unfoldable pub event_of : Json → Option Event
  unfolding truthy str_of
  event_of params = do
    user ← get params (codes "FROM_USER_ID")
    dialog ← get params (codes "DIALOG_ID")
    message ← get params (codes "MESSAGE")
    id ← get params (codes "MESSAGE_ID")
    some (record {
      user_id = text_or_empty user;
      channel_id = text_or_empty dialog;
      text = strip (text_or_empty message);
      post_id = text_or_empty id;
    })

  abbrev pub dispatch : Option Event → Reply Status × List Event
  dispatch none = (crashed, [])
  dispatch (some e) =
      if not (is_empty bot_id) && e.user_id == bot_id
      then (done ignored_bot_own_message, [])
      else if is_empty e.text || is_empty e.user_id || is_empty e.channel_id
      then (done ignored_empty, [])
      else (done received, e ∷ [])

  abbrev pub compared : Json → Option Bool → Reply Status × List Event
  compared payload none = (crashed, [])
  compared payload (some true) = dispatch (params_of payload >>= event_of)
  compared payload (some false) = (refused 401, [])

  abbrev pub checked : Json → Option Text → Reply Status × List Event
  checked payload none = (crashed, [])
  checked payload (some token) =
      if is_empty token then (refused 401, []) else compared payload (compare_digest token secret)

  abbrev pub with_payload : Request → Option Json → Reply Status × List Event
  with_payload r none = (crashed, [])
  with_payload r (some payload) =
      if is_empty secret
      then (refused 401, [])
      else checked payload (extract_inbound_token r payload)

  -- The answer, and the events that are handed to the router.
  unfoldable pub bitrix_webhook_event : Request → Reply Status × List Event
  unfolding params_of event_of extract_inbound_token
  bitrix_webhook_event r = with_payload r (payload_of r)
