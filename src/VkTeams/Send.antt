-- ===== src/VkTeams/Send.antt =====
-- What the VK Teams adapter sends. No exception leaves these functions.
use claw_mux.Base.{
  ◌||◌, Option, none, some, List, [], ◌∷◌, ◌++◌, join, map, is_empty, if◌then◌else◌, Text, codes,
}
use claw_mux.Web.Json.{Json, str, get, get_or, truthy, str_of, ◌>>=◌}
use claw_mux.Telegram.Poll.{Answer, failed, response, is_success}

pub data Request : Type 0 where
  send_text : (chat_id text : Text) → (reply_to : Option Text) → Request
  edit_text : (chat_id msg_id text : Text) → Request
  typing : (chat_id : Text) → Request

abbrev pub reply_of : Text → Option Text
reply_of root = if is_empty root then none else some root

abbrev newline : Text
newline = b'\n' ∷ []

abbrev note : Text → Text
note path = codes "📎 Attachment: " ++ path

abbrev pub with_notes : Text → List Text → Text
with_notes message [] = message
with_notes message (file ∷ files) =
    let notes = join newline (map note (file ∷ files)) in
    if is_empty message then notes else message ++ newline ++ newline ++ notes

-- `reply` answers a request; the result has the requests that were made.
module _ (render : Json → Text) (reply : Request → Answer) where
  abbrev pub parse_id : Json → Option Text
  parse_id data_ = do
    is_ok ← get data_ (codes "ok")
    id ← get_or data_ (codes "msgId") (str [])
    some (if truthy is_ok then str_of render id else [])

  abbrev pub text_or_empty : Option Text → Text
  text_or_empty none = []
  text_or_empty (some t) = t

  abbrev pub id_of : Answer → Text
  id_of failed = []
  id_of (response status body) = if is_success status then text_or_empty (body >>= parse_id) else []

  unfoldable pub send_reply : Text → Text → Text → Text × List Request
  send_reply channel message root =
      let r = send_text channel message (reply_of root) in (id_of (reply r), r ∷ [])

  -- The answer changes nothing.
  unfoldable pub update_reply : Text → Text → Text → List Request
  update_reply id message channel =
      if is_empty id || is_empty channel then [] else edit_text channel id message ∷ []

  unfoldable pub send_typing : Text → List Request
  send_typing channel = typing channel ∷ []

  unfoldable pub send_post_with_files : Text → Text → List Text → Text → Text × List Request
  unfolding send_reply join
  send_post_with_files channel message files root =
      send_reply channel (with_notes message files) root

-- A user's id is that of the chat with the user.
unfoldable pub get_or_create_dm_channel : Text → Text
get_or_create_dm_channel user = user
