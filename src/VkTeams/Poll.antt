-- ===== src/VkTeams/Poll.antt =====
-- `start`, `_poll_loop` and `stop`.
use claw_mux.Base.{
  Bool, true, false, not, ◌&&◌, Option, none, some, List, [], ◌∷◌, ◌++◌, nat_eq, is_empty,
  if◌then◌else◌, Text, codes, Result, ok, err,
}
use claw_mux.Web.Json.{
  Json, num, str, arr, nil, truthy, get, get_or, or_else, elements, str_of, ◌>>=◌,
}
use claw_mux.Telegram.Poll.{
  Answer, failed, response, is_success, Listener, none_yet, polling, cancel, Next, again, sleep,
}
use claw_mux.VkTeams.Message.{Message, handle_event}

-- `dispatched` are the events that tasks were started for, in order.
pub record Adapter : Type 0 where
  pub running : Bool
  pub listen_task : Listener
  pub last_event_id : Json
  pub bot_user_id : Text
  pub has_handler : Bool
  pub dispatched : List Message
  pub http_open : Bool

abbrev pub new : Adapter
new = record {
  running = false;
  listen_task = none_yet;
  last_event_id = num 0;
  bot_user_id = [];
  has_handler = false;
  dispatched = [];
  http_open = true;
}

unfoldable pub is_connected : Adapter → Bool
is_connected a = a.running && not (is_empty a.bot_user_id)

module _ (render : Json → Text) where
  abbrev pub parse_self : Json → Option Text
  parse_self data_ = do
    is_ok ← get data_ (codes "ok")
    id ← get data_ (codes "userId")
    default ← get_or data_ (codes "userId") (str [])
    if truthy is_ok then some (str_of render (or_else id default)) else none

  abbrev pub read_self : Answer → Option Text
  read_self failed = none
  read_self (response status body) = if is_success status then body >>= parse_self else none

  abbrev pub logged_in : Adapter → Option Text → Result (Unit {0}) (Unit {0}) × Adapter
  logged_in a none = (err tt, a)
  logged_in a (some id) = (ok tt, record a { bot_user_id = id; listen_task = polling })

  -- With the answer to self/get; an error is raised again.
  unfoldable pub start : Answer → Adapter → Result (Unit {0}) (Unit {0}) × Adapter
  start me a = logged_in (record a { running = true; has_handler = true }) (read_self me)

  abbrev pub dispatch : Adapter → Option (Option Message) → Adapter × Bool
  dispatch a none = (a, true)
  dispatch a (some none) = (a, false)
  dispatch a (some (some m)) =
      (if a.has_handler then record a { dispatched = a.dispatched ++ m ∷ [] } else a, false)

  -- The id is kept before the event is handled. True is an exception.
  abbrev pub identified : Json → Adapter → Option Json → Adapter × Bool
  identified ev a none = (a, true)
  identified ev a (some id) =
      dispatch (record a { last_event_id = id }) (handle_event render a.bot_user_id ev)

  abbrev pub one_event : Json → Adapter → Adapter × Bool
  one_event ev a = identified ev a (get_or ev (codes "eventId") a.last_event_id)

  -- The rest of the batch is skipped at an exception.
  unfoldable pub handle_events : List Json → Adapter → Adapter × Bool
  handle_events [] a = (a, false)
  handle_events (ev ∷ evs) a =
      let (b, raised) = one_event ev a in if raised then (b, true) else handle_events evs b

  abbrev pub after_batch : Adapter × Bool → Adapter × Next
  after_batch (a, false) = (a, again)
  after_batch (a, true) = (a, sleep 3)

  abbrev pub poll_events : Adapter → Option (List Json) → Adapter × Next
  poll_events a none = (a, sleep 3)
  poll_events a (some evs) = after_batch (handle_events evs a)

  abbrev pub events_of : Option Json → Option (List Json)
  events_of body = body >>= λ j. get_or j (codes "events") (arr nil) >>= elements

  -- One turn of the loop, with the answer to events/get.
  unfoldable pub poll_turn : Answer → Adapter → Adapter × Next
  unfolding handle_events
  poll_turn failed a = (a, sleep 3)
  poll_turn (response status body) a =
      if nat_eq status 200 then poll_events a (events_of body) else (a, sleep 3)

unfoldable pub stop : Adapter → Adapter
stop a = record a { running = false; listen_task = cancel a.listen_task; http_open = false }
