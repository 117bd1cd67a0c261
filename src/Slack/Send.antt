-- ===== src/Slack/Send.antt =====
-- The Web API: what is sent, and what is made of the answers.
use claw_mux.Base.{
  ◌||◌, Option, none, some, List, [], ◌∷◌, ◌++◌, map, join, is_empty, if◌then◌else◌, Text, codes,
}
use claw_mux.Web.Json.{Json, str, obj, end, truthy, get, get_or, ◌>>=◌}

pub data Request : Type 0 where
  post_message : (channel text : Text) → (thread_ts : Option Text) → Request
  chat_update : (channel ts text : Text) → Request
  open_conversation : (user : Text) → Request

abbrev pub or_empty : Option Json → Json
or_empty none = str []
or_empty (some j) = j

abbrev pub posted_ts : Json → Option Json
posted_ts data_ = do
  is_ok ← get data_ (codes "ok")
  ts ← get_or data_ (codes "ts") (str [])
  some (if truthy is_ok then ts else str [])

abbrev pub opened_id : Json → Option Json
opened_id data_ = do
  is_ok ← get data_ (codes "ok")
  if truthy is_ok
      then (do
        channel ← get_or data_ (codes "channel") (obj end)
        get_or channel (codes "id") (str []))
      else some (str [])

abbrev pub thread_of : Text → Option Text
thread_of root = if is_empty root then none else some root

-- `reply` is the decoded answer to a request, none where the request, its status or the decoding
-- raises, all of which is only logged. Each function gives its result and the requests it makes.
module _ (reply : Request → Option Json) where
  unfoldable pub send_reply : Text → Text → Text → Json × List Request
  send_reply channel message root =
      let r = post_message channel message (thread_of root) in
      (or_empty (reply r >>= posted_ts), r ∷ [])

  unfoldable pub update_reply : Text → Text → Text → List Request
  update_reply ts message channel =
      if is_empty ts || is_empty channel then [] else chat_update channel ts message ∷ []

  abbrev pub file_notes : List Text → Text
  file_notes files = join (10 ∷ []) (map (λ p. codes "📎 Attachment: " ++ p) files)

  unfoldable pub send_post_with_files : Text → Text → List Text → Text → Json × List Request
  unfolding send_reply
  send_post_with_files channel message files root =
      let noted =
        if is_empty message then file_notes files else message ++ 10 ∷ 10 ∷ file_notes files in
      send_reply channel (if is_empty files then message else noted) root

  unfoldable pub get_or_create_dm_channel : Text → Json × List Request
  get_or_create_dm_channel user =
      let r = open_conversation user in (or_empty (reply r >>= opened_id), r ∷ [])
