-- ===== src/OpenClaw/Invariant.antt =====
-- The fields of the request in flight over whole runs.
use claw_mux.Base.{
  ℕ, refl, Bool, true, false, Option, none, some, List, [], ◌∷◌, inl, text_key, nat_key, Text,
  if-both, if-true, and_true, ◌&&◌,
}
use claw_mux.Base.Dict.{get, pop}
use claw_mux.Aggregator.{ClawMessage, ClawAggregator, fire, cancel_all}
use claw_mux.OpenClaw.State.{
  Client, Output, result, pending_open, is_waiting, is_connected, same_id,
}
use claw_mux.OpenClaw.Actions.{
  Action, frame, debounce, late_fallback, forget_text, send, wake, time_out, send_fails, disconnect,
  close, try_send, resume, resume_send, wake_send, time_out_send, fail_send, end_send,
  fire_fallback, stop_listening, close_client, routed, step, steps, is_done,
}
use claw_mux.OpenClaw.Pending.{
  Inv, other-Inv, dropped-Inv, begin_send-Inv, set-Inv, dispatch-Inv, route-Inv, end_listen-Inv,
}

module _ (c : Client) (v : Inv c) where
  close-Inv : Inv (close_client c)
  unfolding close_client
  close-Inv = stopped c.listening
    where
      base : Client
      base = record c { connected = false; aggregator = cancel_all c.aggregator; agent_texts = [] }

      w : Inv base
      w = other-Inv c v c.ws false c.listening c.timed_out_msg_id [] (cancel_all c.aggregator)

      closed : {d : Client} (l : Option Bool) → Inv d → Inv (record d { listening = l; ws = none })
      closed {d} l u =
          other-Inv d u none d.connected l d.timed_out_msg_id d.agent_texts d.aggregator

      stopped : (l : Option Bool) → Inv (record (stop_listening l base) { ws = none })
      stopped none = closed base.listening w
      stopped (some true) = closed none (end_listen-Inv base w)
      stopped (some false) = closed base.listening w

  resume-Inv : (l : Option (ℕ × Text)) (id : Text) (b : Bool) → Inv (resume_send c l id b).0
  unfolding resume_send
  resume-Inv none id b = begin_send-Inv c v id b
  resume-Inv (some held) id b = v

  pub lock-Inv : (l : Option (ℕ × Text)) (id : Text) (b : Bool) → Inv (try_send c l id b).0
  unfolding try_send
  lock-Inv none id b =
      if-both (λ (r : Client × List Output). Inv r.0) (is_connected c) (begin_send-Inv c v id b) v
  lock-Inv (some h) id b = v

  end-Inv : Inv (end_send c)
  unfolding end_send
  end-Inv = dropped-Inv c v none false (inl refl)

  wake-Inv : (l : Option (ℕ × Text)) → Inv (wake_send c l).0
  unfolding wake_send
  wake-Inv none = v
  wake-Inv (some (f, id)) =
      if-both (λ (r : Client × List Output). Inv r.0) (is_done (get c.futures f)) end-Inv v

  time_out-Inv : (l : Option (ℕ × Text)) → Inv (time_out_send c l).0
  unfolding time_out_send
  time_out-Inv none = v
  time_out-Inv (some (f, id)) =
      if-both (λ (r : Client × List Output). Inv r.0) (is_waiting (get c.futures f)) (stamp end-Inv)
        v
    where
      stamp : {d : Client} → Inv d → Inv (record d { timed_out_msg_id = some id })
      stamp {d} w = other-Inv d w d.ws d.connected d.listening (some id) d.agent_texts d.aggregator

  fail-Inv : (l : Option (ℕ × Text)) → Inv (fail_send c l).0
  unfolding fail_send
  fail-Inv none = v
  fail-Inv (some h) = end-Inv

  routed-Inv : (r : ClawAggregator × Option ClawMessage) → Inv (routed c r).0
  routed-Inv (a, none) =
      other-Inv c v c.ws c.connected c.listening c.timed_out_msg_id c.agent_texts a
  routed-Inv (a, some m) =
      route-Inv _ (other-Inv c v c.ws c.connected c.listening c.timed_out_msg_id c.agent_texts a) m

  fallback-Inv : (id text : Text) → Inv (fire_fallback c id text)
  unfolding fire_fallback
  fallback-Inv id text =
      if-true Inv (pending_open c && same_id c.pending_future_msg_id (some id))
        (λ t. set-Inv c v (result text []) (and_true (pending_open c) _ t).0) v

  pub step-Inv : (min_len : ℕ) (a : Action) → Inv (step min_len c a).0
  unfolding step
  step-Inv min_len (frame now f) = dispatch-Inv c v now f
  step-Inv min_len (debounce t) = routed-Inv (fire min_len c.aggregator t)
  step-Inv min_len (late_fallback id text) = fallback-Inv id text
  step-Inv min_len (forget_text run_id) =
      other-Inv c v c.ws c.connected c.listening c.timed_out_msg_id (pop c.agent_texts run_id)
        c.aggregator
  step-Inv min_len (send id b) = lock-Inv c.send_lock id b
  step-Inv min_len (resume id b) = resume-Inv c.send_lock id b
  step-Inv min_len wake = wake-Inv c.send_lock
  step-Inv min_len time_out = time_out-Inv c.send_lock
  step-Inv min_len send_fails = fail-Inv c.send_lock
  step-Inv min_len disconnect = end_listen-Inv c v
  step-Inv min_len close = close-Inv

-- Whatever actions follow one another, the fields of the request in flight stay together: the
-- active id is the pending one, a pending future is the one that the holder of the lock waits
-- for, under its id, and without a holder nothing is pending.
pub steps-Inv : (min_len : ℕ) (c : Client) (as_ : List Action) → Inv c → Inv (steps min_len c as_).0
unfolding steps
steps-Inv min_len c [] v = v
steps-Inv min_len c (a ∷ as_) v =
    let (d, out) = step min_len c a in steps-Inv min_len d as_ (step-Inv c v min_len a)
