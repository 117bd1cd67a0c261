-- ===== src/OpenClaw/Actions.antt =====
-- The client as a machine: each action runs from one `await` to the next.
use claw_mux.Base.{
  ℕ, suc, Bool, true, false, ◌&&◌, Option, none, some, List, [], ◌∷◌, ◌++◌, text_key, nat_key, Text,
  codes, if◌then◌else◌,
}
use claw_mux.Base.Dict.{get, put, pop}
use claw_mux.Aggregator.{ClawMessage, ClawAggregator, fire, cancel_all}
use claw_mux.OpenClaw.State.{
  Client, Future, waiting, exception, result, Output, chat_send, returned, raised, refused,
  is_connected, pending_open, set_pending, same_id, is_waiting,
}
use claw_mux.OpenClaw.Frame.{Frame}
use claw_mux.OpenClaw.Dispatch.{dispatch, route}

pub data Action : Type 0 where
  frame : ℕ → Frame → Action  -- the listen loop reads a frame, at a time
  debounce : ℕ → Action  -- a timer of the aggregator ends
  late_fallback : Text → Text → Action  -- `_delayed_fallback` wakes up
  forget_text : Text → Action  -- the cleanup 10 s after a final event
  send : Text → Bool → Action  -- `send_message` is called, with a fresh id
  resume : Text → Bool → Action  -- a call that waited for the lock gets it
  wake : Action  -- its future is done
  time_out : Action  -- its wait times out
  send_fails : Action  -- its `ws.send` raises
  disconnect : Action  -- the listen loop ends
  close : Action

-- `finally` of `send_message`; the lock is released.
unfoldable pub end_send : Client → Client
end_send c = record c {
  active_msg_id = none;
  pending_future = none;
  pending_future_msg_id = none;
  active_on_stream = false;
  send_lock = none;
}

unfoldable pub begin_send : Client → Text → Bool → Client × List Output
begin_send c msg_id on_stream = (
  record c {
    active_msg_id = some msg_id;
    pending_future = some c.next_future;
    pending_future_msg_id = some msg_id;
    active_on_stream = on_stream;
    send_lock = some (c.next_future, msg_id);
    futures = put c.futures c.next_future waiting;
    next_future = suc c.next_future;
  },
  chat_send msg_id ∷ [],
)

-- A caller without the lock waits for it; without a connection it raises.
unfoldable pub try_send : Client → Option (ℕ × Text) → Text → Bool → Client × List Output
unfolding begin_send
try_send c none msg_id on_stream =
    if is_connected c then begin_send c msg_id on_stream else (c, refused msg_id ∷ [])
try_send c (some held) msg_id on_stream = (c, if is_connected c then [] else refused msg_id ∷ [])

-- Behind the wait the connection is not tested again.
unfoldable pub resume_send : Client → Option (ℕ × Text) → Text → Bool → Client × List Output
unfolding begin_send
resume_send c none msg_id on_stream = begin_send c msg_id on_stream
resume_send c (some held) msg_id on_stream = (c, [])

abbrev pub outcome : Text → Option Future → List Output
outcome msg_id (some (result text paths)) = returned msg_id text paths ∷ []
outcome msg_id (some exception) = raised msg_id ∷ []
outcome msg_id _ = []

abbrev pub is_done : Option Future → Bool
is_done (some waiting) = false
is_done none = false
is_done _ = true

unfoldable pub wake_send : Client → Option (ℕ × Text) → Client × List Output
unfolding end_send
wake_send c none = (c, [])
wake_send c (some (f, msg_id)) =
    let v = get c.futures f in if is_done v then (end_send c, outcome msg_id v) else (c, [])

abbrev pub timeout_text : Text
timeout_text = codes "[Timeout: OpenClaw did not respond within the allotted time]"

unfoldable pub time_out_send : Client → Option (ℕ × Text) → Client × List Output
unfolding end_send
time_out_send c none = (c, [])
time_out_send c (some (f, msg_id)) =
    if is_waiting (get c.futures f)
    then (
      record (end_send c) { timed_out_msg_id = some msg_id },
      returned msg_id timeout_text [] ∷ [],
    )
    else (c, [])

unfoldable pub fail_send : Client → Option (ℕ × Text) → Client × List Output
unfolding end_send
fail_send c none = (c, [])
fail_send c (some (f, msg_id)) = (end_send c, raised msg_id ∷ [])

unfoldable pub fire_fallback : Client → Text → Text → Client
fire_fallback c msg_id text =
    if pending_open c && same_id c.pending_future_msg_id (some msg_id)
    then set_pending c (result text [])
    else c

-- `finally` of `_listen_loop`
unfoldable pub end_listen : Client → Client
end_listen c =
    let d = record c { connected = false; agent_texts = []; listening = some false } in
    if pending_open c then set_pending d exception else d

unfoldable pub stop_listening : Option Bool → Client → Client
unfolding end_listen
stop_listening (some true) d = record (end_listen d) { listening = none }
stop_listening _ d = d

-- `close`: it cancels the listen task, which ends as above.
unfoldable pub close_client : Client → Client
unfolding stop_listening
close_client c =
    let d = record c {
      connected = false;
      aggregator = cancel_all c.aggregator;
      agent_texts = [];
    } in
    record (stop_listening d.listening d) { ws = none }

abbrev pub routed : Client → ClawAggregator × Option ClawMessage → Client × List Output
routed c (a, none) = (record c { aggregator = a }, [])
routed c (a, some m) = route (record c { aggregator = a }) m

unfoldable pub step : ℕ → Client → Action → Client × List Output
unfolding try_send resume_send wake_send time_out_send fail_send fire_fallback end_listen
    close_client
step min_len c (frame now f) = dispatch now c f
step min_len c (debounce t) = routed c (fire min_len c.aggregator t)
step min_len c (late_fallback msg_id text) = (fire_fallback c msg_id text, [])
step min_len c (forget_text run_id) = (record c { agent_texts = pop c.agent_texts run_id }, [])
step min_len c (send msg_id on_stream) = try_send c c.send_lock msg_id on_stream
step min_len c (resume msg_id on_stream) = resume_send c c.send_lock msg_id on_stream
step min_len c wake = wake_send c c.send_lock
step min_len c time_out = time_out_send c c.send_lock
step min_len c send_fails = fail_send c c.send_lock
step min_len c disconnect = (end_listen c, [])
step min_len c close = (close_client c, [])

unfoldable pub steps : ℕ → Client → List Action → Client × List Output
steps min_len c [] = (c, [])
steps min_len c (a ∷ as_) =
    let (d, out) = step min_len c a in let (e, more) = steps min_len d as_ in (e, out ++ more)
