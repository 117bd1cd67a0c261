-- ===== src/Mattermost/Socket.antt =====
-- `start`, `_ws_listen_loop`, `send_typing` and `stop`: a machine whose actions are a frame, a new
-- connection, the end of one, or a call of the adapter.
use claw_mux.Base.{
  ℕ, suc, Bool, true, false, not, ◌&&◌, Option, none, some, List, [], ◌∷◌, ◌++◌, if◌then◌else◌,
  Text, codes,
}
use claw_mux.Web.Json.{Json, index, text_of, ◌>>=◌}
use claw_mux.Mattermost.Posts.{Event, handle_ws_event}

-- `_ws`, with the state of its protocol.
pub data Socket : Type 0 where
  no_socket : Socket
  opened : Socket
  shut : Socket

-- What is sent over the socket, with its number.
pub data Sent : Type 0 where
  authentication : ℕ → Sent
  user_typing : ℕ → (channel parent : Text) → Sent

pub record Adapter : Type 0 where
  pub running : Bool
  pub bot_user_id : Option Text
  pub ws : Socket
  pub ws_seq : ℕ
  pub has_handler : Bool
  pub sent : List Sent  -- the newest first
  pub dispatched : List Event
  pub http_open : Bool

abbrev pub new : Adapter
new = record {
  running = false;
  bot_user_id = none;
  ws = no_socket;
  ws_seq = 1;
  has_handler = false;
  sent = [];
  dispatched = [];
  http_open = true;
}

abbrev pub is_open : Socket → Bool
is_open no_socket = false
is_open opened = true
is_open shut = false

unfoldable pub is_ws_connected : Adapter → Bool
is_ws_connected a = a.running && is_open a.ws

abbrev pub logged_in : Adapter → Option Text → Adapter
logged_in a none = a
logged_in a (some id) = record a { bot_user_id = some id }

-- The answer to /users/me, decoded; none where the request, its status or the decoding raises. The
-- id is a text.
unfoldable pub log_in : Option Json → Adapter → Adapter
log_in me a =
    logged_in (record a { running = true; has_handler = true })
      (me >>= λ j. index j (codes "id") >>= text_of)

abbrev pub close : Socket → Socket
close no_socket = no_socket
close opened = shut
close shut = shut

-- A new connection, and whether the first message can be sent: if not, the connection is left.
unfoldable pub connect : Bool → Adapter → Adapter
connect sendable a =
    let n = suc a.ws_seq in
    if sendable
    then record a { ws = opened; ws_seq = n; sent = authentication n ∷ a.sent }
    else record a { ws = shut; ws_seq = n }

abbrev pub dispatch : Adapter → Option (Option Event) → Adapter
dispatch a (some (some e)) =
    if a.has_handler then record a { dispatched = a.dispatched ++ e ∷ [] } else a
dispatch a o = a

-- A frame, none if it is no JSON. Exceptions are only logged.
abbrev pub on_frame : (Text → Option Json) → Option Json → Adapter → Adapter
on_frame parse none a = a
on_frame parse (some data_) a =
    if a.running then dispatch a (handle_ws_event parse a.bot_user_id data_) else a

-- A number is used up even if the message cannot be sent.
unfoldable pub send_typing : Text → Text → Bool → Adapter → Adapter
send_typing channel parent sendable a =
    let n = suc a.ws_seq in
    if not (is_open a.ws)
    then a
    else if sendable
    then record a { ws_seq = n; sent = user_typing n channel parent ∷ a.sent }
    else record a { ws_seq = n }

unfoldable pub stop : Adapter → Adapter
stop a = record a { running = false; ws = close a.ws; http_open = false }

pub data Action : Type 0 where
  connected : (sendable : Bool) → Action
  frame : Option Json → Action
  disconnected : Action
  typed : (channel parent : Text) → (sendable : Bool) → Action
  stopped : Action

module _ (parse : Text → Option Json) where
  unfoldable pub step : Action → Adapter → Adapter
  unfolding connect send_typing stop
  step (connected sendable) a = if a.running then connect sendable a else a
  step (frame f) a = on_frame parse f a
  step disconnected a = record a { ws = close a.ws }
  step (typed channel parent sendable) a = send_typing channel parent sendable a
  step stopped a = stop a

  unfoldable pub steps : List Action → Adapter → Adapter
  unfolding step
  steps [] a = a
  steps (x ∷ xs) a = steps xs (step x a)
