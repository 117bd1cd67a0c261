-- ===== src/OpenClaw/State.antt =====
-- The fields of `OpenClawClient`, and the futures that `send_message` waits for. A future is an
-- object that the caller and the client share, so futures stand in a store of their own.
use claw_mux.Base.{
  ℕ, Bool, true, false, not, ◌&&◌, Option, none, some, List, [], ◌==◌, text_key, nat_key, Text,
  is_empty,
}
use claw_mux.Base.Dict.{Dict, get, put}
use claw_mux.Aggregator.{ClawAggregator, new}

pub data Future : Type 0 where
  waiting : Future
  result : Text → List Text → Future
  exception : Future

pub record Client : Type 0 where
  pub ws : Option Bool  -- the socket, and whether its protocol state is OPEN
  pub connected : Bool
  pub listening : Option Bool  -- the listen task, and whether it still runs
  pub send_lock : Option (ℕ × Text)  -- the request that holds `_send_lock`: its future and id
  pub active_msg_id : Option Text
  pub pending_future : Option ℕ
  pub pending_future_msg_id : Option Text
  pub timed_out_msg_id : Option Text
  pub active_on_stream : Bool  -- a streaming callback is set
  pub agent_texts : Dict Text Text
  pub aggregator : ClawAggregator
  pub futures : Dict ℕ Future
  pub next_future : ℕ
  pub on_proactive : Bool  -- a proactive callback is set

-- What the client does to the outside. A task that sleeps first comes back as an action.
pub data Output : Type 0 where
  stream proactive : Text → Output  -- a callback is fired with a text
  fallback : Text → Text → Output  -- `_delayed_fallback` starts to sleep
  cleanup : Text → Output  -- `call_later(10.0, agent_texts.pop, run_id)`
  chat_send : Text → Output  -- the request goes to the gateway
  returned : Text → Text → List Text → Output  -- `send_message` returns
  raised : Text → Output  -- `send_message` raises
  refused : Text → Output  -- `send_message` raises before it takes the lock

unfoldable pub initial : Bool → Client
initial callback = record {
  ws = none;
  connected = false;
  listening = none;
  send_lock = none;
  active_msg_id = none;
  pending_future = none;
  pending_future_msg_id = none;
  timed_out_msg_id = none;
  active_on_stream = false;
  agent_texts = [];
  aggregator = new true;
  futures = [];
  next_future = 0;
  on_proactive = callback;
}

abbrev pub is_true : Option Bool → Bool
is_true none = false
is_true (some b) = b

unfoldable pub is_connected : Client → Bool
is_connected c = c.connected && is_true c.ws && is_true c.listening

-- The truth value of an optional text.
abbrev pub truthy : Option Text → Bool
truthy none = false
truthy (some t) = not (is_empty t)

abbrev pub is_waiting : Option Future → Bool
is_waiting (some waiting) = true
is_waiting _ = false

abbrev pub open_at : Dict ℕ Future → Option ℕ → Bool
open_at futures none = false
open_at futures (some f) = is_waiting (get futures f)

-- `self._pending_future is not None and not self._pending_future.done()`
unfoldable pub pending_open : Client → Bool
pending_open c = open_at c.futures c.pending_future

abbrev pub complete : Dict ℕ Future → Option ℕ → Future → Dict ℕ Future
complete futures none v = futures
complete futures (some f) v = put futures f v

-- `self._pending_future.set_result(...)`, `set_exception(...)`: guarded by `pending_open` wherever
-- the program calls them.
unfoldable pub set_pending : Client → Future → Client
set_pending c v = record c { futures = complete c.futures c.pending_future v }

abbrev pub same_id : Option Text → Option Text → Bool
same_id none none = true
same_id (some a) (some b) = a == b
same_id _ _ = false
