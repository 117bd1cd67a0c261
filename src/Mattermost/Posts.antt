-- ===== src/Mattermost/Posts.antt =====
-- `_handle_ws_event`: the event that a post makes.
use claw_mux.Base.{
  Bool, true, false, not, ◌&&◌, Option, none, some, [], if◌then◌else◌, ◌==◌, text_key, Text, codes,
  strip, is_empty,
}
use claw_mux.Web.Json.{
  Json, null, str, arr, obj, nil, end, truthy, get, get_or, or_else, text_of, ◌>>=◌,
}

-- The event's fields. What is not looked at is passed on as it comes.
pub record Event : Type 0 where
  pub user_id : Json
  pub channel_id : Json
  pub text : Text
  pub post_id : Json
  pub file_ids : Json
  pub root_id : Json

-- j == s
abbrev pub is_text : Json → Text → Bool
is_text (str t) s = t == s
is_text j s = false

-- user_id == self._bot_user_id, which is None before the log-in.
abbrev pub is_bot : Option Text → Json → Bool
is_bot none null = true
is_bot none j = false
is_bot (some bot) user = is_text user bot

-- A post that is a text, decoded; `parse` is json.loads. The outer none is a TypeError.
abbrev pub decoded : (Text → Option Json) → Json → Option (Option Json)
decoded parse (str t) = some (parse t)
decoded parse j = none

abbrev pub kept : Event → Option Event
kept e = if is_empty (strip e.text) && not (truthy e.file_ids) then none else some e

abbrev pub event_of : Json → Json → Option (Option Event)
event_of post user = do
  channel ← get_or post (codes "channel_id") (str [])
  message ← get_or post (codes "message") (str [])
  id ← get_or post (codes "id") (str [])
  root ← get_or post (codes "root_id") (str [])
  files ← get post (codes "file_ids")
  text ← text_of message
  some (
      kept (record {
        user_id = user;
        channel_id = channel;
        text = text;
        post_id = id;
        file_ids = or_else files (arr nil);
        root_id = root;
      }))

abbrev pub on_user : Option Text → Json → Json → Option (Option Event)
on_user bot post user = if is_bot bot user then some none else event_of post user

abbrev pub on_post : Option Text → Option Json → Option (Option Event)
on_post bot none = some none
on_post bot (some post) = get_or post (codes "user_id") (str []) >>= on_user bot post

abbrev pub on_data : (Text → Option Json) → Option Text → Json → Option (Option Event)
on_data parse bot post = if truthy post then decoded parse post >>= on_post bot else some none

-- The outer none is an exception, the inner one an event that is ignored.
unfoldable pub handle_ws_event : (Text → Option Json) → Option Text → Json → Option (Option Event)
unfolding truthy
handle_ws_event parse bot data_ = do
  kind ← get data_ (codes "event")
  if is_text kind (codes "posted")
      then (do
        event_data ← get_or data_ (codes "data") (obj end)
        post ← get event_data (codes "post")
        on_data parse bot post)
      else some none
