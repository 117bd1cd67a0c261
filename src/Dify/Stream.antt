-- ===== src/Dify/Stream.antt =====
-- `_stream_chat`: the fold over the lines of the response.
use claw_mux.Base.{
  Bool, false, not, ◌||◌, Option, none, some, List, [], ◌∷◌, ◌++◌, is_empty, if◌then◌else◌, ◌==◌,
  text_key, Text, codes, strip, starts_with, remove_prefix,
}
use claw_mux.Web.Json.{Json, str, truthy, get, get_or, ◌>>=◌}

-- The answer so far, the conversation, and what `on_stream` was given, the newest first.
pub record State : Type 0 where
  pub parts : Text
  pub conversation_id : Text
  pub streamed : List Text

abbrev pub empty : State
empty = record { parts = []; conversation_id = []; streamed = [] }

-- What an event does to the loop.
pub data Step : Type 0 where
  go_on : State → Step
  finished : State → Step
  failed : State → Step  -- the event "error"
  raised : State → Step  -- an exception that leaves the loop

abbrev pub data_prefix : Text
data_prefix = codes "data:"

-- The text of an event, or a line that is passed over.
unfoldable pub payload_of : Text → Option Text
payload_of line =
    let raw = strip (remove_prefix data_prefix line) in
    if not (starts_with line data_prefix)
    then none
    else if is_empty raw || raw == codes "[DONE]"
    then none
    else some raw

-- Dify documents an answer and an id as texts; another value counts as an exception here.
abbrev pub text_or_raise : Json → Option Text
text_or_raise (str t) = some t
text_or_raise j = if truthy j then none else some []

abbrev pub is_text : Json → Text → Bool
is_text (str t) s = t == s
is_text j s = false

abbrev pub is_message : Json → Bool
is_message kind = is_text kind (codes "message") || is_text kind (codes "agent_message")

-- `on_stream`, where there is one, is given all that has come so far; its failures are only logged.
abbrev pub add_chunk : Bool → Text → State → State
add_chunk streams chunk s =
    let joined = s.parts ++ chunk in
    if is_empty chunk
    then s
    else record s { parts = joined; streamed = if streams then joined ∷ s.streamed else s.streamed }

abbrev pub chunked : Bool → State → Option Text → Step
chunked streams s none = raised s
chunked streams s (some chunk) = go_on (add_chunk streams chunk s)

abbrev pub by_kind : Bool → Json → State → Json → Step
by_kind streams event s kind =
    if is_message kind
    then chunked streams s (get_or event (codes "answer") (str []) >>= text_or_raise)
    else if is_text kind (codes "message_end")
    then finished s
    else if is_text kind (codes "error")
    then failed s
    else go_on s

-- The first conversation id that is not empty stays.
abbrev pub with_conversation : State → Option Json → Option State
with_conversation s none = none
with_conversation s (some j) =
    if is_empty s.conversation_id
    then (text_or_raise j >>= λ id. some (record s { conversation_id = id }))
    else some s

abbrev pub conversed : Bool → Json → Json → State → Option State → Step
conversed streams event kind s none = raised s
conversed streams event kind s (some t) = by_kind streams event t kind

abbrev pub typed : Bool → Json → State → Option Json → Step
typed streams event s none = raised s
typed streams event s (some kind) =
    conversed streams event kind s (with_conversation s (get event (codes "conversation_id")))

unfoldable pub on_event : Bool → Json → State → Step
unfolding truthy
on_event streams event s = typed streams event s (get_or event (codes "event") (str []))

-- `parse` is json.loads: none is a JSONDecodeError, and the line is passed over.
module _ (parse : Text → Option Json) (streams : Bool) where
  abbrev pub on_parsed : State → Option Json → Step
  on_parsed s none = go_on s
  on_parsed s (some event) = on_event streams event s

  abbrev pub on_payload : State → Option Text → Step
  on_payload s none = go_on s
  on_payload s (some raw) = on_parsed s (parse raw)

  abbrev pub on_line : Text → State → Step
  on_line line s = on_payload s (payload_of line)

  abbrev pub continue : Step → (State → Step) → Step
  continue (go_on t) rest = rest t
  continue (finished t) rest = finished t
  continue (failed t) rest = failed t
  continue (raised t) rest = raised t

  -- The lines of the response, in order.
  unfoldable pub read_lines : List Text → State → Step
  unfolding on_event payload_of
  read_lines [] s = finished s
  read_lines (line ∷ lines) s = let rest = read_lines lines in continue (on_line line s) rest
