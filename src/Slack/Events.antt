-- ===== src/Slack/Events.antt =====
-- `_handle_events_api`: the event that a payload makes.
use claw_mux.Base.{
  Bool, false, not, ◌||◌, Option, none, some, List, [], ◌∷◌, if◌then◌else◌, ◌==◌, text_key, Text,
  codes, strip,
}
use claw_mux.Web.Json.{
  Json, str, arr, obj, nil, end, truthy, get, get_or, or_else, text_of, elements, ◌>>=◌,
}

-- The event's fields. What is not changed is passed on as it comes.
pub record Event : Type 0 where
  pub user_id : Json
  pub channel_id : Json
  pub text : Text
  pub post_id : Json
  pub file_ids : List Json
  pub root_id : Json

-- j == s
abbrev pub is_text : Json → Text → Bool
is_text (str t) s = t == s
is_text j s = false

abbrev pub is_ignored : Json → Bool
is_ignored subtype =
    is_text subtype (codes "bot_message")
    || is_text subtype (codes "message_deleted")
    || is_text subtype (codes "message_changed")

abbrev pub is_supported : Json → Bool
is_supported kind = is_text kind (codes "message") || is_text kind (codes "app_mention")

-- [f.get("id") for f in files if f.get("id")]
unfoldable pub ids_of : List Json → Option (List Json)
ids_of [] = some []
ids_of (f ∷ files) =
    let rest = ids_of files in
    get f (codes "id") >>= λ id. rest >>= λ ids. some (if truthy id then id ∷ ids else ids)

abbrev pub channel_event : Json → Json → Option Event
channel_event event user = do
  channel ← get_or event (codes "channel") (str [])
  said ← get event (codes "text")
  text ← text_of (or_else said (str []))
  ts ← get_or event (codes "ts") (str [])
  thread ← get event (codes "thread_ts")
  files ← get_or event (codes "files") (arr nil)
  rows ← elements files
  ids ← ids_of rows
  some (record {
    user_id = user;
    channel_id = channel;
    text = strip text;
    post_id = ts;
    file_ids = ids;
    root_id = or_else thread (str []);
  })

abbrev pub made : Option Event → Option (Option Event)
made none = none
made (some e) = some (some e)

-- A message of nobody, or of the bot itself.
abbrev pub is_own : Text → Json → Bool
is_own bot_user_id user = not (truthy user) || is_text user bot_user_id

-- The outer none is an exception, the inner one an event that is ignored.
unfoldable pub handle_events_api : Text → Json → Option (Option Event)
unfolding truthy ids_of
handle_events_api bot_user_id payload = do
  event ← get_or payload (codes "event") (obj end)
  kind ← get event (codes "type")
  subtype ← get event (codes "subtype")
  user ← get event (codes "user")
  if is_ignored subtype
      then some none
      else if is_own bot_user_id user
      then some none
      else if is_supported kind
      then made (channel_event event user)
      else some none
