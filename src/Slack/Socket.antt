-- ===== src/Slack/Socket.antt =====
-- `start`, `_socket_mode_loop` and `stop`. Delays are whole seconds.
use claw_mux.Base.{
  ℕ, ◌*◌, Bool, true, false, not, ◌&&◌, Option, none, some, List, [], ◌∷◌, ◌++◌, leb, if◌then◌else◌,
  Text, codes, Result, ok, err,
}
use claw_mux.Web.Json.{Json, str, obj, end, truthy, get, get_or, text_of, ◌>>=◌}
use claw_mux.Slack.Events.{Event, is_text, handle_events_api}

pub record Adapter : Type 0 where
  pub running : Bool
  pub listening : Bool  -- the task of the loop
  pub ws_connected : Bool
  pub reconnect_delay : ℕ
  pub bot_user_id : Text
  pub has_handler : Bool
  pub acknowledged : List Json  -- the envelopes, in order
  pub dispatched : List Event
  pub http_open : Bool

abbrev pub new : Adapter
new = record {
  running = false;
  listening = false;
  ws_connected = false;
  reconnect_delay = 1;
  bot_user_id = [];
  has_handler = false;
  acknowledged = [];
  dispatched = [];
  http_open = true;
}

unfoldable pub is_connected : Adapter → Bool
is_connected a = a.running && a.ws_connected

-- The id of the bot in the answer to auth.test.
abbrev pub parse_auth : Json → Option Text
parse_auth data_ = do
  is_ok ← get data_ (codes "ok")
  id ← get_or data_ (codes "user_id") (str [])
  name ← text_of id
  if truthy is_ok then some name else none

abbrev pub authenticated : Adapter → Option Text → Result (Unit {0}) (Unit {0}) × Adapter
authenticated a none = (err tt, a)
authenticated a (some id) =
    (ok tt, record a { bot_user_id = id; listening = true; reconnect_delay = 1 })

-- With the decoded answer to auth.test, none where the request, its status or the decoding raises.
unfoldable pub start : Option Json → Adapter → Result (Unit {0}) (Unit {0}) × Adapter
start auth a = authenticated (record a { running = true; has_handler = true }) (auth >>= parse_auth)

-- A frame, decoded or no JSON, and whether the acknowledgement can be sent.
pub record Frame : Type 0 where
  pub message : Option Json
  pub is_sendable : Bool

abbrev pub dispatch : Adapter → Option (Option Event) → Adapter
dispatch a (some (some e)) =
    if a.has_handler then record a { dispatched = a.dispatched ++ e ∷ [] } else a
dispatch a o = a

abbrev pub on_type : Adapter → Json → Json → Adapter
on_type a message kind =
    if is_text kind (codes "events_api")
    then dispatch a (get_or message (codes "payload") (obj end) >>= handle_events_api a.bot_user_id)
    else a

-- The envelope is acknowledged first; where that raises, the event is not handled.
abbrev pub acknowledge : Adapter → Json → Json → Json → Bool → Adapter
acknowledge a message envelope kind sendable =
    if not (truthy envelope)
    then on_type a message kind
    else if sendable
    then on_type (record a { acknowledged = a.acknowledged ++ envelope ∷ [] }) message kind
    else a

abbrev pub opened : Adapter → Json → Bool → Option (Json × Json) → Adapter
opened a message sendable none = a
opened a message sendable (some (envelope, kind)) = acknowledge a message envelope kind sendable

abbrev pub header_of : Json → Option (Json × Json)
header_of message = do
  envelope ← get message (codes "envelope_id")
  kind ← get message (codes "type")
  some (envelope, kind)

abbrev pub decoded : Adapter → Bool → Option Json → Adapter
decoded a sendable none = a
decoded a sendable (some message) = opened a message sendable (header_of message)

-- One frame: every exception is only logged.
unfoldable pub on_frame : Adapter → Frame → Adapter
unfolding truthy
on_frame a f = decoded a f.is_sendable f.message

unfoldable pub on_frames : Adapter → List Frame → Adapter
unfolding on_frame
on_frames a [] = a
on_frames a (f ∷ fs) = if a.running then on_frames (on_frame a f) fs else a

-- A turn of the loop: no connection, or one with its frames, which the other side closes or which breaks.
pub data Session : Type 0 where
  refused : Session
  closed : List Frame → Session
  broken : List Frame → Session

abbrev pub min : ℕ → ℕ → ℕ
min m n = if leb m n then m else n

-- After an exception: the delay, and the next one.
abbrev pub back_off : Adapter → Adapter × Option ℕ
back_off a = (
  record a { ws_connected = false; reconnect_delay = min (a.reconnect_delay * 2) 60 },
  some a.reconnect_delay,
)

abbrev pub connected : Adapter → Adapter
connected a = record a { ws_connected = true; reconnect_delay = 1 }

-- The adapter, and how long the loop sleeps before the next turn, if it does.
unfoldable pub turn : Session → Adapter → Adapter × Option ℕ
unfolding on_frames
turn refused a = back_off a
turn (closed fs) a = (on_frames (connected a) fs, none)
turn (broken fs) a = back_off (on_frames (connected a) fs)

unfoldable pub stop : Adapter → Adapter
stop a = record a { running = false; listening = false; http_open = false; ws_connected = false }
