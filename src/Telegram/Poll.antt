-- ===== src/Telegram/Poll.antt =====
-- `start`, `_poll_loop` and `stop`.
use claw_mux.Base.{
  ℕ, suc, Bool, true, false, not, ◌&&◌, Option, none, some, List, [], ◌∷◌, ◌++◌, leb, nat_eq,
  is_empty, if◌then◌else◌, Text, codes, Result, ok, err,
}
use claw_mux.Web.Json.{Json, num, arr, nil, truthy, get, get_or, elements, str_of, ◌>>=◌}
use claw_mux.Telegram.Update.{Message, get_dict, get_text, handle_update}

pub data Listener : Type 0 where
  none_yet polling cancelled : Listener

-- `dispatched` are the events that tasks were started for, in order.
pub record Adapter : Type 0 where
  pub running : Bool
  pub bot_id : Text
  pub last_update_id : ℕ
  pub has_handler : Bool
  pub listen_task : Listener
  pub dispatched : List Message
  pub http_open : Bool

abbrev pub new : Adapter
new = record {
  running = false;
  bot_id = [];
  last_update_id = 0;
  has_handler = false;
  listen_task = none_yet;
  dispatched = [];
  http_open = true;
}

unfoldable pub is_connected : Adapter → Bool
is_connected a = a.running && not (is_empty a.bot_id)

-- An answer of the Bot API: the request raises, or a status and the body, none if it is no JSON.
pub data Answer : Type 0 where
  failed : Answer
  response : ℕ → Option Json → Answer

-- httpx's test of `raise_for_status`
abbrev pub is_success : ℕ → Bool
is_success status = leb 200 status && leb status 299

-- What the loop does next.
pub data Next : Type 0 where
  again : Next
  sleep : ℕ → Next
  leave : Next

module _ (render : Json → Text) where
  abbrev pub parse_me : Json → Option Text
  parse_me data_ = do
    is_ok ← get data_ (codes "ok")
    me ← get_dict data_ (codes "result")
    id ← get_text me (codes "id")
    if truthy is_ok then some (str_of render id) else none

  abbrev pub logged_in : Adapter → Option Text → Result (Unit {0}) (Unit {0}) × Adapter
  logged_in a none = (err tt, a)
  logged_in a (some id) = (ok tt, record a { bot_id = id; listen_task = polling })

  abbrev pub read_me : Answer → Option Text
  read_me failed = none
  read_me (response status body) = if is_success status then body >>= parse_me else none

  -- With the answer to getMe; an error is raised again.
  unfoldable pub start : Answer → Adapter → Result (Unit {0}) (Unit {0}) × Adapter
  start me a = logged_in (record a { running = true; has_handler = true }) (read_me me)

  abbrev pub dispatch : Adapter → Option Message → Adapter
  dispatch a none = a
  dispatch a (some m) =
      if a.has_handler then record a { dispatched = a.dispatched ++ m ∷ [] } else a

  -- max(last, id); a value that cannot be compared raises. Identifiers are natural numbers.
  abbrev pub advance : Adapter → Json → Option Adapter
  advance a (num n) = some (if leb a.last_update_id n then record a { last_update_id = n } else a)
  advance a j = none

  abbrev pub after_update : Adapter → Option (Option Message) → Adapter × Bool
  after_update a none = (a, true)
  after_update a (some m) = (dispatch a m, false)

  -- One update: the counter moves before the update is handled. True is an exception.
  abbrev pub advanced : Json → Adapter → Option Adapter → Adapter × Bool
  advanced update a none = (a, true)
  advanced update a (some b) = after_update b (handle_update render update)

  abbrev pub one_update : Json → Adapter → Adapter × Bool
  one_update update a = advanced update a (get_or update (codes "update_id") (num 0) >>= advance a)

  -- The rest of the batch is skipped at an exception.
  unfoldable pub handle_updates : List Json → Adapter → Adapter × Bool
  handle_updates [] a = (a, false)
  handle_updates (u ∷ us) a =
      let (b, raised) = one_update u a in if raised then (b, true) else handle_updates us b

  abbrev pub after_batch : Adapter × Bool → Adapter × Next
  after_batch (a, false) = (a, again)
  after_batch (a, true) = (a, if a.running then sleep 5 else leave)

  abbrev pub poll_result : Adapter → Option (List Json) → Adapter × Next
  poll_result a none = after_batch (a, true)
  poll_result a (some us) = after_batch (handle_updates us a)

  abbrev pub poll_body : Adapter → Option Json → Adapter × Next
  poll_body a none = after_batch (a, true)
  poll_body a (some j) = elim (get j (codes "ok")) [
    | none ↦ after_batch (a, true)
    | some is_ok ↦
        if truthy is_ok
        then poll_result a (get_or j (codes "result") (arr nil) >>= elements)
        else (a, sleep 3)
  ]

  -- One turn of the loop, with the answer to getUpdates.
  unfoldable pub poll_turn : Answer → Adapter → Adapter × Next
  unfolding handle_updates elements
  poll_turn failed a = after_batch (a, true)
  poll_turn (response status body) a = if nat_eq status 200 then poll_body a body else (a, sleep 3)

-- The `offset` of the next request.
unfoldable pub offset : Adapter → ℕ
offset a = suc a.last_update_id

abbrev pub cancel : Listener → Listener
cancel none_yet = none_yet
cancel polling = cancelled
cancel cancelled = cancelled

unfoldable pub stop : Adapter → Adapter
stop a = record a { running = false; listen_task = cancel a.listen_task; http_open = false }
