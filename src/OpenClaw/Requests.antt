-- ===== src/OpenClaw/Requests.antt =====
-- The starts and the ends of the requests (`send_message` of src/services/openclaw_client.py).
use claw_mux.Base.{
  ℕ, ◌≡◌, refl, sym, ap, ◌∙◌, Bool, true, false, Option, none, some, List, [], ◌∷◌, ◌++◌,
  append_assoc, append-nil, arith, Text, nat_key, text_key,
}
use claw_mux.Base.Dict.{get, pop, get-put_self}
use claw_mux.Aggregator.{ClawMessage, ClawAggregator, fire, cancel_all}
use claw_mux.OpenClaw.State.{
  Client, Output, chat_send, returned, raised, waiting, exception, is_connected, pending_open,
  set_pending,
}
use claw_mux.OpenClaw.Frame.{Frame}
use claw_mux.OpenClaw.Dispatch.{
  dispatch, on_res, on_agent, on_assistant, on_lifecycle, on_chat, on_cron, route,
}
use claw_mux.OpenClaw.Actions.{
  Action, frame, debounce, late_fallback, forget_text, send, wake, time_out, send_fails, disconnect,
  close, begin_send, try_send, resume, resume_send, wake_send, time_out_send, fail_send, end_send,
  fire_fallback, end_listen, stop_listening, close_client, routed, step, steps,
}
use claw_mux.OpenClaw.Futures.{dispatch-cases}

-- The ids of the requests that go to the gateway, in order.
abbrev begun_by : Output → List Text
begun_by (chat_send id) = id ∷ []
begun_by _ = []

-- The ids of the requests that end, by a return or an exception, in order.
abbrev ended_by : Output → List Text
ended_by (returned id text paths) = id ∷ []
ended_by (raised id) = id ∷ []
ended_by _ = []

unfoldable pub begun : List Output → List Text
begun [] = []
begun (o ∷ out) = begun_by o ++ begun out

unfoldable pub ended : List Output → List Text
ended [] = []
ended (o ∷ out) = ended_by o ++ ended out

abbrev pub in_flight : Option (ℕ × Text) → List Text
in_flight none = []
in_flight (some (f, id)) = id ∷ []

-- What a step from `c` conserves.
abbrev Balanced : Client → Client × List Output → Type 0
Balanced c r = in_flight c.send_lock ++ begun r.1 ≡ ended r.1 ++ in_flight r.0.send_lock

begun-append : (xs ys : List Output) → begun (xs ++ ys) ≡ begun xs ++ begun ys
unfolding begun
begun-append [] ys = refl
begun-append (o ∷ xs) ys =
    ap (λ l. begun_by o ++ l) (begun-append xs ys)
    ∙ sym (append_assoc (begun_by o) (begun xs) (begun ys))

ended-append : (xs ys : List Output) → ended (xs ++ ys) ≡ ended xs ++ ended ys
unfolding ended
ended-append [] ys = refl
ended-append (o ∷ xs) ys =
    ap (λ l. ended_by o ++ l) (ended-append xs ys)
    ∙ sym (append_assoc (ended_by o) (ended xs) (ended ys))

silent-Balanced : (c d : Client) → d.send_lock ≡ c.send_lock → Balanced c (d, [])
unfolding begun ended
silent-Balanced c d e = append-nil (in_flight c.send_lock) ∙ ap in_flight (sym e)

module _ (c : Client) where
  agent-Balanced : (f : Frame) → Balanced c (on_agent c f)
  unfolding begun ended on_agent on_assistant on_lifecycle set_pending
  agent-Balanced f = ground arith

  res-Balanced : (f : Frame) → Balanced c (on_res c f)
  unfolding begun ended on_res set_pending
  res-Balanced f = ground arith

  chat-Balanced : (now : ℕ) (f : Frame) → Balanced c (on_chat now c f)
  unfolding begun ended on_chat
  chat-Balanced now f = ground arith

  cron-Balanced : (f : Frame) → Balanced c (on_cron c f)
  unfolding begun ended on_cron
  cron-Balanced f = ground arith

  dispatch-Balanced : (now : ℕ) (f : Frame) → Balanced c (dispatch now c f)
  dispatch-Balanced now f =
      dispatch-cases (Balanced c) now c f (silent-Balanced c c refl) (res-Balanced f)
        (agent-Balanced f) (chat-Balanced now f) (cron-Balanced f)

  route-Balanced : (m : ClawMessage) → Balanced c (route c m)
  unfolding begun ended route set_pending
  route-Balanced m = ground arith

  send-Balanced : (id : Text) (b : Bool) → Balanced c (try_send c c.send_lock id b)
  unfolding begun ended try_send begin_send
  send-Balanced id b = ground arith

  resume-Balanced : (id : Text) (b : Bool) → Balanced c (resume_send c c.send_lock id b)
  unfolding begun ended resume_send begin_send
  resume-Balanced id b = ground arith

  wake-Balanced : Balanced c (wake_send c c.send_lock)
  unfolding begun ended wake_send end_send
  wake-Balanced = ground arith

  time_out-Balanced : Balanced c (time_out_send c c.send_lock)
  unfolding begun ended time_out_send end_send
  time_out-Balanced = ground arith

  fail-Balanced : Balanced c (fail_send c c.send_lock)
  unfolding begun ended fail_send end_send
  fail-Balanced = ground arith

routed-Balanced : (c : Client) (r : ClawAggregator × Option ClawMessage) → Balanced c (routed c r)
routed-Balanced c (a, none) = silent-Balanced c (record c { aggregator = a }) refl
routed-Balanced c (a, some m) = route-Balanced (record c { aggregator = a }) m

stop-Balanced : (c : Client) (l : Option Bool) → (stop_listening l c).send_lock ≡ c.send_lock
unfolding stop_listening end_listen set_pending
stop-Balanced c none = refl
stop-Balanced c (some true) = ground arith
stop-Balanced c (some false) = refl

step-Balanced : (min_len : ℕ) (c : Client) (a : Action) → Balanced c (step min_len c a)
unfolding step
step-Balanced min_len c (frame now f) = dispatch-Balanced c now f
step-Balanced min_len c (debounce t) = routed-Balanced c (fire min_len c.aggregator t)
step-Balanced min_len c (late_fallback id text) =
    unfold begun ended fire_fallback set_pending in ground arith
step-Balanced min_len c (forget_text run_id) =
    silent-Balanced c (record c { agent_texts = pop c.agent_texts run_id }) refl
step-Balanced min_len c (send id b) = send-Balanced c id b
step-Balanced min_len c (resume id b) = resume-Balanced c id b
step-Balanced min_len c wake = wake-Balanced c
step-Balanced min_len c time_out = time_out-Balanced c
step-Balanced min_len c send_fails = fail-Balanced c
step-Balanced min_len c disconnect = unfold begun ended end_listen set_pending in ground arith
step-Balanced min_len c close =
    unfold begun ended close_client in
    ground (
      arith,
      stop-Balanced
          (record c { connected = false; aggregator = cancel_all c.aggregator; agent_texts = [] })
          c.listening,
    )

-- Over any actions: the requests that are sent to the gateway, behind the one in flight at first,
-- are the requests that end, and behind them the one in flight at last, id for id and in order. So
-- each request ends at most once, under its own id and before the next is sent, and at most one is
-- in flight.
pub sends_conserved :
    (min_len : ℕ) (c : Client) (as_ : List Action)
    → in_flight c.send_lock ++ begun (steps min_len c as_).1
      ≡ ended (steps min_len c as_).1 ++ in_flight (steps min_len c as_).0.send_lock
unfolding steps begun ended
sends_conserved min_len c [] = append-nil (in_flight c.send_lock)
sends_conserved min_len c (a ∷ as_) =
    let (d, out) = step min_len c a in
    let (e, more) = steps min_len d as_ in
    ap (λ x. in_flight c.send_lock ++ x) (begun-append out more)
    ∙ sym (append_assoc (in_flight c.send_lock) (begun out) (begun more))
    ∙ ap (λ x. x ++ begun more) (step-Balanced min_len c a)
    ∙ append_assoc (ended out) (in_flight d.send_lock) (begun more)
    ∙ ap (λ x. ended out ++ x) (sends_conserved min_len d as_)
    ∙ sym (append_assoc (ended out) (ended more) (in_flight e.send_lock))
    ∙ ap (λ x. x ++ in_flight e.send_lock) (sym (ended-append out more))

-- When the listen loop ends while a request waits for an answer, the client is disconnected and
-- the request, once it wakes, raises, so that its caller can retry, and frees the lock.
pub disconnect-raises :
    (min_len : ℕ) (c : Client) (f : ℕ) (id : Text)
    → c.send_lock ≡ some (f, id)
    → c.pending_future ≡ some f
    → get c.futures f ≡ some waiting
    → (is_connected (steps min_len c (disconnect ∷ wake ∷ [])).0 ≡ false)
      × ((steps min_len c (disconnect ∷ wake ∷ [])).0.send_lock ≡ none)
      × ((steps min_len c (disconnect ∷ wake ∷ [])).1 ≡ raised id ∷ [])
unfolding steps step is_connected wake_send end_send end_listen pending_open set_pending
disconnect-raises min_len c f id l p w = ground (arith, get-put_self c.futures f exception)
