-- ===== src/Telegram/Update.antt =====
-- `_handle_update`: the event that an update makes.
use claw_mux.Base.{
  not, ◌&&◌, Option, none, some, List, [], ◌∷◌, is_empty, if◌then◌else◌, Text, codes,
}
use claw_mux.Web.Json.{
  Json, str, obj, end, truthy, get, get_or, index, last, or_else, str_of, ◌>>=◌,
}

-- The event's fields. The text and the file ids are passed on as they come.
pub record Message : Type 0 where
  pub user_id : Text
  pub channel_id : Text
  pub text : Json
  pub post_id : Text
  pub file_ids : List Json
  pub root_id : Text

-- `d.get(key, {})`
abbrev pub get_dict : Json → Text → Option Json
get_dict j k = get_or j k (obj end)

-- `d.get(key, "")`
abbrev pub get_text : Json → Text → Option Json
get_text j k = get_or j k (str [])

-- data.get("result", {}).get("message_id", "")
abbrev pub message_id_of : Json → Option Json
message_id_of data_ = do
  result ← get_dict data_ (codes "result")
  get_text result (codes "message_id")

-- A document, or the largest photo.
abbrev pub attached : Json → Option (List Json)
attached message = do
  document ← get message (codes "document")
  photo ← get message (codes "photo")
  if truthy document
      then (do id ← index document (codes "file_id"); some (id ∷ []))
      else if truthy photo
      then (do largest ← last photo; id ← index largest (codes "file_id"); some (id ∷ []))
      else some []

-- `render` is Python's text of a value that is no text.
module _ (render : Json → Text) where
  abbrev pub root_of : Json → Text
  root_of thread = if truthy thread then str_of render thread else []

  -- A channel's post has no sender, and counts as the channel's.
  abbrev pub sender_or : Text → Text → Text
  sender_or user channel = if is_empty user && not (is_empty channel) then channel else user

  abbrev pub message_event : Json → Option (Option Message)
  message_event message = do
    from_user ← get_dict message (codes "from")
    chat ← get_dict message (codes "chat")
    user ← get_text from_user (codes "id")
    channel ← get_text chat (codes "id")
    text ← get_text message (codes "text")
    caption ← get_text message (codes "caption")
    post ← get_text message (codes "message_id")
    thread ← get message (codes "message_thread_id")
    files ← attached message
    if not (truthy (or_else text caption)) && is_empty files
        then some none
        else some (
            some (record {
              user_id = sender_or (str_of render user) (str_of render channel);
              channel_id = str_of render channel;
              text = or_else text caption;
              post_id = str_of render post;
              file_ids = files;
              root_id = root_of thread;
            }))

  -- The outer none is an exception, the inner one an update that is ignored.
  unfoldable pub handle_update : Json → Option (Option Message)
  unfolding truthy get_or index last str_of
  handle_update update = do
    message ← get update (codes "message")
    post ← get update (codes "channel_post")
    if truthy (or_else message post) then message_event (or_else message post) else some none
