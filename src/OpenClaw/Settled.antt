-- ===== src/OpenClaw/Settled.antt =====
-- The futures of src/services/openclaw_client.py over whole runs.
use claw_mux.Base.{
  ℕ, ◌≡◌, Bool, true, false, Option, none, some, List, [], ◌∷◌, arith, if-both, if-true, and_true,
  nat_eq_iff, nat_key, text_key, Text, ◌&&◌,
}
use claw_mux.Base.Dict.{get, get-put}
use claw_mux.Aggregator.{ClawMessage, ClawAggregator, fire}
use claw_mux.OpenClaw.State.{
  Client, Output, Future, waiting, result, is_waiting, is_connected, pending_open, same_id,
}
use claw_mux.OpenClaw.Actions.{
  Action, frame, debounce, late_fallback, forget_text, send, wake, time_out, send_fails, disconnect,
  close, begin_send, try_send, resume, resume_send, wake_send, time_out_send, fail_send,
  fire_fallback, stop_listening, close_client, routed, is_done, step, steps,
}
use claw_mux.OpenClaw.Futures.{
  dispatch-settled, route-settled, end_listen-settled, set_pending-settled,
}
use claw_mux.OpenClaw.Pending.{Inv}
use claw_mux.OpenClaw.Invariant.{step-Inv}

module _ (c : Client) (f : ℕ) (v : Future) (e : get c.futures f ≡ some v)
    (d : is_waiting (some v) ≡ false) where
  abbrev Kept : Client → Type 0
  Kept x = get x.futures f ≡ some v

  abbrev Result-kept : Client × List Output → Type 0
  Result-kept r = Kept r.0

  begin-settled : Inv c → (id : Text) (b : Bool) → Kept (begin_send c id b).0
  unfolding begin_send
  begin-settled i id b =
      ground (
        arith,
        i.fresh f v e,
        get-put c.futures c.next_future f waiting,
        nat_eq_iff c.next_future f,
      )

  send-settled : Inv c → (l : Option (ℕ × Text)) (id : Text) (b : Bool) → Kept (try_send c l id b).0
  unfolding try_send
  send-settled i none id b = if-both Result-kept (is_connected c) (begin-settled i id b) e
  send-settled i (some h) id b = e

  resume-settled :
      Inv c → (l : Option (ℕ × Text)) (id : Text) (b : Bool) → Kept (resume_send c l id b).0
  unfolding resume_send
  resume-settled i none id b = begin-settled i id b
  resume-settled i (some h) id b = e

  wake-settled : (l : Option (ℕ × Text)) → Kept (wake_send c l).0
  unfolding wake_send
  wake-settled none = e
  wake-settled (some (g, id)) = if-both Result-kept (is_done (get c.futures g)) e e

  time_out-settled : (l : Option (ℕ × Text)) → Kept (time_out_send c l).0
  unfolding time_out_send
  time_out-settled none = e
  time_out-settled (some (g, id)) = if-both Result-kept (is_waiting (get c.futures g)) e e

  fail-settled : (l : Option (ℕ × Text)) → Kept (fail_send c l).0
  unfolding fail_send
  fail-settled none = e
  fail-settled (some h) = e

  fallback-settled : (id text : Text) → Kept (fire_fallback c id text)
  unfolding fire_fallback
  fallback-settled id text =
      if-true Kept (pending_open c && same_id c.pending_future_msg_id (some id))
        (λ t. set_pending-settled c f v e d (result text []) (and_true (pending_open c) _ t).0) e

  routed-settled : (r : ClawAggregator × Option ClawMessage) → Kept (routed c r).0
  routed-settled (a, none) = e
  routed-settled (a, some m) = route-settled (record c { aggregator = a }) f v e d m

  stop-settled : (l : Option Bool) → Kept (stop_listening l c)
  unfolding stop_listening
  stop-settled none = e
  stop-settled (some true) = end_listen-settled c f v e d
  stop-settled (some false) = e

module _ (c : Client) (f : ℕ) (v : Future) (e : get c.futures f ≡ some v)
    (d : is_waiting (some v) ≡ false) where
  step-settled : Inv c → (min_len : ℕ) (a : Action) → get (step min_len c a).0.futures f ≡ some v
  unfolding step close_client
  step-settled i min_len (frame now fr) = dispatch-settled c f v e d now fr
  step-settled i min_len (debounce t) = routed-settled c f v e d (fire min_len c.aggregator t)
  step-settled i min_len (late_fallback id text) = fallback-settled c f v e d id text
  step-settled i min_len (forget_text run_id) = e
  step-settled i min_len (send id b) = send-settled c f v e d i c.send_lock id b
  step-settled i min_len (resume id b) = resume-settled c f v e d i c.send_lock id b
  step-settled i min_len wake = wake-settled c f v e d c.send_lock
  step-settled i min_len time_out = time_out-settled c f v e d c.send_lock
  step-settled i min_len send_fails = fail-settled c f v e d c.send_lock
  step-settled i min_len disconnect = end_listen-settled c f v e d
  step-settled i min_len close = stop-settled _ f v e d c.listening

-- Once a request has its answer, or its exception, no later action changes it: neither another
-- final, an error, a fallback, a disconnect, nor the start of another request.
pub steps-settled :
    (min_len : ℕ) (c : Client) (as_ : List Action) (f : ℕ) (v : Future)
    → Inv c
    → get c.futures f ≡ some v
    → is_waiting (some v) ≡ false
    → get (steps min_len c as_).0.futures f ≡ some v
unfolding steps
steps-settled min_len c [] f v i e d = e
steps-settled min_len c (a ∷ as_) f v i e d =
    let (n, out) = step min_len c a in
    steps-settled min_len n as_ f v (step-Inv c i min_len a) (step-settled c f v e d i min_len a) d
