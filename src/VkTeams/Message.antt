-- ===== src/VkTeams/Message.antt =====
-- `_handle_event`: the event that a new message makes.
use claw_mux.Base.{
  not, ◌&&◌, ◌||◌, Bool, Option, none, some, List, [], ◌∷◌, strip, is_empty, if◌then◌else◌, ◌==◌,
  text_key, Text, codes,
}
use claw_mux.Web.Json.{Json, str, arr, nil, get, get_or, or_else, elements, str_of, ◌>>=◌}
use claw_mux.Mattermost.Posts.{is_text}
use claw_mux.Telegram.Update.{get_dict}

pub record Message : Type 0 where
  pub user_id : Text
  pub channel_id : Text
  pub text : Text
  pub post_id : Text
  pub file_ids : List Text
  pub root_id : Text

-- `sender_id and sender_id == bot`
abbrev pub is_own : Text → Text → Bool
is_own bot sender = not (is_empty sender) && sender == bot

abbrev pub is_quote : Json → Bool
is_quote kind = is_text kind (codes "reply") || is_text kind (codes "forward")

-- `render` is Python's text of a value that is no text.
module _ (render : Json → Text) where
  -- str(j or d)
  abbrev pub str_or : Json → Text → Text
  str_or j d = str_of render (or_else j (str d))

  abbrev pub file_id : Json → Option Text
  file_id part = do
    payload ← get_dict part (codes "payload")
    id ← get payload (codes "fileId")
    some (str_of render id)

  -- Each part is looked at; a part that is no dictionary raises.
  unfoldable pub file_ids_of : List Json → Option (List Text)
  file_ids_of [] = some []
  file_ids_of (part ∷ parts) = do
    kind ← get part (codes "type")
    rest ← file_ids_of parts
    if is_text kind (codes "file") then (do id ← file_id part; some (id ∷ rest)) else some rest

  abbrev pub quoted : Json → Option Text
  quoted part = do
    payload ← get_dict part (codes "payload")
    message ← get_dict payload (codes "message")
    id ← get message (codes "msgId")
    some (str_or id [])

  abbrev pub quoted_or : Text → Json → Option Text
  quoted_or root part = do
    kind ← get part (codes "type")
    if is_quote kind then quoted part else some root

  -- The last reply or forward counts.
  unfoldable pub root_from : Text → List Json → Option Text
  root_from root [] = some root
  root_from root (part ∷ parts) = quoted_or root part >>= λ r. root_from r parts

  abbrev pub message_of : Json → Text → Text → Text → Text → Option (Option Message)
  message_of payload sender chat id text = do
    field ← get_or payload (codes "parts") (arr nil)
    parts ← elements field
    files ← file_ids_of parts
    root ← root_from [] parts
    some (
        some (record {
          user_id = sender;
          channel_id = chat;
          text = text;
          post_id = id;
          file_ids = files;
          root_id = root;
        }))

  abbrev pub new_message : Text → Json → Option (Option Message)
  new_message bot payload = do
    sender ← get_dict payload (codes "from")
    user ← get sender (codes "userId")
    chat ← get_dict payload (codes "chat")
    chat_id ← get chat (codes "chatId")
    id ← get payload (codes "msgId")
    text ← get payload (codes "text")
    let sender_id = str_or user [] in
        if is_own bot sender_id
        then some none
        else message_of payload sender_id (str_or chat_id sender_id) (str_or id [])
            (strip (str_or text []))

  -- The outer none is an exception, the inner one an event that is ignored.
  unfoldable pub handle_event : Text → Json → Option (Option Message)
  unfolding file_ids_of root_from
  handle_event bot event_data = do
    kind ← get event_data (codes "type")
    payload ← get_dict event_data (codes "payload")
    if is_text kind (codes "newMessage") then new_message bot payload else some none
