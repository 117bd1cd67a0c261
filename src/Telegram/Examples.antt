-- ===== src/Telegram/Examples.antt =====
-- The theorems of the Telegram adapter at concrete inputs.
use claw_mux.Base.{
  ◌≡◌, refl, ℕ, arith, false, none, List, [], ◌∷◌, take, drop, Text, codes, contains, starts_with,
  list_eq, text_key,
}
use claw_mux.Web.Json.{
  Json, num, str, obj, field, end, get_or, find_field, str_of, truthy, index, last,
}
use claw_mux.Web.Text.{replace, replace_from}
use claw_mux.Telegram.Update.{Message, handle_update}
use claw_mux.Telegram.Poll.{new, start, failed, offset}
use claw_mux.Telegram.Batch.{Rising, id_of, updates_from, events}
use claw_mux.Telegram.Polled.{Poll, answered, error, lost, polls, polls_exact, polls_complete}
use claw_mux.Telegram.Send.{Request, Reply, http_error, send_reply, redact}
use claw_mux.Telegram.Redacted.{send_reply-hides}

abbrev render : Json → Text
render j = codes "7"

abbrev chat : Json
chat = obj (field (codes "id") (num 7) end)

abbrev text_update : ℕ → Text → Json
text_update n t = obj (
    field (codes "update_id") (num n) (
      field (codes "message")
        (obj (
          field (codes "from") chat (field (codes "chat") chat (field (codes "text") (str t) end))))
        end))

-- An update whose message is a number raises.
abbrev broken : ℕ → Json
broken n = obj (field (codes "update_id") (num n) (field (codes "message") (num 1) end))

abbrev stream : List Json
stream = text_update 3 (codes "Hi") ∷ broken 4 ∷ text_update 9 (codes "There") ∷ []

abbrev hello : Text → Message
hello t = record {
  user_id = codes "7";
  channel_id = codes "7";
  text = str t;
  post_id = [];
  file_ids = [];
  root_id = [];
}

stream-Rising : Rising 0 stream
unfolding id_of get_or find_field list_eq
stream-Rising = (3, refl, omega arith, (4, refl, omega arith, (9, refl, omega arith, tt)))

stream_events : events render stream ≡ hello (codes "Hi") ∷ hello (codes "There") ∷ []
unfolding events handle_update get_or find_field list_eq truthy index last str_of
stream_events = refl

abbrev turns : List Poll
turns = lost ∷ answered 2 ∷ error 301 none ∷ answered 5 ∷ answered 1 ∷ []

polls_exact_example :
    (k : ℕ) × ((polls render stream turns (start render failed new).1).dispatched
      ≡ events render (take k stream))
    × (updates_from (offset (polls render stream turns (start render failed new).1)) stream
        ≡ drop k stream)
polls_exact_example = polls_exact render stream failed turns stream-Rising

polls_complete_example :
    (polls render stream turns (start render failed new).1).dispatched ≡ events render stream
polls_complete_example = polls_complete render stream failed turns stream-Rising (omega arith)

abbrev leaking : List Request → Reply
leaking log = http_error (codes "no route to /bot12:ab/sendMessage")

abbrev safe_text : Text
safe_text = codes "no route to /bot***/sendMessage"

send_reply-hides_example : contains safe_text (codes "12:ab") ≡ false
send_reply-hides_example =
    send_reply-hides (codes "12:ab") render leaking (λ path. false) (λ path. none) (codes "7")
      (codes "Hi") [] [] safe_text refl refl
      (unfold send_reply in
        unfold redact in unfold replace in unfold replace_from in unfold starts_with in refl)
