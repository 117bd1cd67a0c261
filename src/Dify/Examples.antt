-- ===== src/Dify/Examples.antt =====
-- A chat with Dify at a concrete stream.
use claw_mux.Base.{
  ◌≡◌, refl, true, Option, some, none, [], ◌∷◌, Text, codes, if◌then◌else◌, ◌==◌, text_key, list_eq,
  strip, lstrip, is_space, starts_with,
}
use claw_mux.Web.Json.{Json, str, obj, field, end, get_or, find_field, truthy}
use claw_mux.Dify.Stream.{read_lines, on_event, payload_of}
use claw_mux.Dify.Chat.{Conversations, Request, Response, lines, chat}

-- One user, with one conversation.
abbrev single : Conversations Text
single = record { get = λ c user. c; put = λ c user id. id; pop = λ c user. [] }

abbrev chunk : Text → Json
chunk t = obj (
    field (codes "event") (str (codes "message"))
      (field (codes "conversation_id") (str (codes "k1")) (field (codes "answer") (str t) end)))

abbrev parse : Text → Option Json
parse raw =
    if raw == codes "1"
    then some (chunk (codes "Hel"))
    else if raw == codes "2"
    then some (chunk (codes "lo"))
    else none

abbrev send : Request → Response
send r = lines (
    codes "data: 1"
    ∷ codes ": ping"
    ∷ codes "data: {"
    ∷ codes "data: 2"
    ∷ codes "data: [DONE]"
    ∷ [])

chat_hello :
    (chat single parse true send [] (codes "ann") (codes "Hi")).answer ≡ some (codes "Hello")
unfolding chat read_lines on_event payload_of list_eq strip lstrip is_space starts_with get_or
    find_field truthy
chat_hello = refl
