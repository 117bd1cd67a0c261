-- ===== src/OpenClaw/Answers.antt =====
-- Where an aggregated message goes, and what a request returns.
use claw_mux.Base.{
  ℕ, ◌≡◌, refl, sym, ◌∙◌, ap, ◌⊎◌, inl, inr, true, false, Option, none, some, List, [], ◌∷◌, arith,
  Bool-cases, ◌≢◌, All, list_eq, list_eq_iff, Text, nat_key, text_key, ◌==◌, codes, is_empty,
  eq_true,
}
use claw_mux.Base.Dict.{get, get-put_self}
use claw_mux.Aggregator.{ClawMessage, ClawAggregator, is_final, final}
use claw_mux.Aggregator.Burst.{add_events, Finals}
use claw_mux.OpenClaw.State.{
  Client, Output, Future, exception, proactive, waiting, result, is_waiting, open_at, pending_open,
  set_pending, same_id,
}
use claw_mux.OpenClaw.Frame.{Frame}
use claw_mux.OpenClaw.Media.{clean_text, media_paths_of}
use claw_mux.OpenClaw.Dispatch.{
  dispatch, chat_text, on_chat, chat_message, route, answers_request, is_ignored,
}
use claw_mux.OpenClaw.Actions.{Action, frame, routed, step, steps}

-- The request that waits is the one that the message names, and it is not the one that timed out.
pub record IsAwaited (c : Client) (m : ClawMessage) : Type 0 where
  pub future : ℕ
  pub pending : c.pending_future ≡ some future
  pub open_ : get c.futures future ≡ some waiting
  pub named : c.pending_future_msg_id ≡ some m.msg_id
  pub in_time : c.timed_out_msg_id ≢ some m.msg_id

same_id-some : (o : Option Text) (id : Text) → same_id o (some id) ≡ true → o ≡ some id
same_id-some none id h = cc
same_id-some (some a) id h = ap (λ t. some t) ((list_eq_iff a id).0 h)

some-same_id : (o : Option Text) (id : Text) → o ≡ some id → same_id o (some id) ≡ true
some-same_id o id h = rw h (eq_true id id refl)

is_waiting-some : (o : Option Future) → is_waiting o ≡ true → o ≡ some waiting
is_waiting-some none h = cc
is_waiting-some (some waiting) h = refl
is_waiting-some (some exception) h = cc
is_waiting-some (some (result t ps)) h = cc

pending_open-some :
    (c : Client)
    → pending_open c ≡ true
    → (f : ℕ) × (c.pending_future ≡ some f) × (get c.futures f ≡ some waiting)
unfolding pending_open
pending_open-some c h = go c.pending_future refl h
  where
    go :
        (o : Option ℕ)
        → c.pending_future ≡ o
        → open_at c.futures o ≡ true
        → (f : ℕ) × (c.pending_future ≡ some f) × (get c.futures f ≡ some waiting)
    go none e k = cc
    go (some f) e k = (f, e, is_waiting-some (get c.futures f) k)

answers_request-IsAwaited :
    (c : Client) (m : ClawMessage) → answers_request c m ≡ true → IsAwaited c m
unfolding answers_request
answers_request-IsAwaited c m a =
    let (f, p, w) = pending_open-some c (ground arith) in
    let n = same_id-some c.pending_future_msg_id m.msg_id (ground arith) in
    record { future = f; pending = p; open_ = w; named = n; in_time = λ t. late t n (ground arith) }
  where
    late :
        c.timed_out_msg_id ≡ some m.msg_id
        → c.pending_future_msg_id ≡ some m.msg_id
        → same_id c.timed_out_msg_id c.pending_future_msg_id ≡ false
        → ⊥
    late t n h = cc (
      ap (λ o. same_id c.timed_out_msg_id o) (sym n) ∙ h,
      some-same_id c.timed_out_msg_id m.msg_id t,
    )

other-same_id : (o : Option Text) (id : Text) → o ≢ some id → same_id o (some id) ≡ false
other-same_id o id h = elim (Bool-cases (same_id o (some id))) [
  | inl e ↦ absurd (h (same_id-some o id e))
  | inr e ↦ e
]

IsAwaited-answers_request :
    (c : Client) (m : ClawMessage) → IsAwaited c m → answers_request c m ≡ true
unfolding answers_request pending_open
IsAwaited-answers_request c m a =
    rw
      (
        a.pending,
        a.open_,
        a.named,
        eq_true m.msg_id m.msg_id refl,
        other-same_id c.timed_out_msg_id m.msg_id a.in_time,
      )
      refl

-- With a proactive callback set, an aggregated message with text goes to one place: if it names
-- the request that waits, and that one has not timed out, it is the result of the request's future
-- and goes nowhere else; if not, it is handed to the callback and no future changes.
pub route_delivers :
    (c : Client) (m : ClawMessage)
    → c.on_proactive ≡ true
    → is_empty m.text ≡ false
    → ((a : IsAwaited c m) × (get (route c m).0.futures a.future
          ≡ some (result m.text m.media_paths))
        × ((route c m).1 ≡ []))
      ⊎ ((¬ IsAwaited c m)
          × ((route c m).0.futures ≡ c.futures)
          × ((route c m).1 ≡ proactive m.text ∷ []))
route_delivers c m p t = elim (Bool-cases (answers_request c m)) [
  | inr e ↦ inr (
    (λ a. cc (e, IsAwaited-answers_request c m a)),
    unfold route in ground arith,
    unfold route in ground arith,
  )
  | inl e ↦
      let a = answers_request-IsAwaited c m e in
      inl (
        a,
        (unfold route set_pending in
            ground
              (arith, a.pending, get-put_self c.futures a.future (result m.text m.media_paths))),
        (unfold route in ground arith),
      )
]

-- A final chat event that `_dispatch` does not ignore.
pub record IsFinalChat (f : Frame) : Type 0 where
  pub heard : is_ignored f ≡ false
  pub no_ack : (f.type == codes "res") ≡ false
  pub chat : f.event ≡ codes "chat"
  pub closing : f.state ≡ final

abbrev pub messages : Client → List (ℕ × Frame) → List ClawMessage
messages c [] = []
messages c ((now, f) ∷ fs) = chat_message now c f ∷ messages c fs

abbrev pub frames : List (ℕ × Frame) → List Action
frames [] = []
frames ((now, f) ∷ fs) = frame now f ∷ frames fs

dispatch-chat :
    (now : ℕ) (c : Client) (f : Frame) → IsFinalChat f → dispatch now c f ≡ on_chat now c f
unfolding dispatch list_eq
dispatch-chat now c f h = rw (h.heard, h.no_ack, h.chat) refl

-- Final chat events only feed the aggregator.
pub feed :
    (min_len : ℕ) (c : Client) (fs : List (ℕ × Frame))
    → All (λ p. IsFinalChat p.1) fs
    → (steps min_len c (frames fs)).0
      ≡ record c { aggregator = add_events c.aggregator (messages c fs) }
unfolding steps step on_chat add_events chat_message
feed min_len c [] h = refl
feed min_len c ((now, f) ∷ fs) h =
    ap (λ (r : Client × List Output). (steps min_len r.0 (frames fs)).0) (dispatch-chat now c f h.0)
    ∙ feed min_len (on_chat now c f).0 fs h.1

pub routed-some :
    (c : Client) (r : ClawAggregator × Option ClawMessage) (m : ClawMessage)
    → r.1 ≡ some m
    → routed c r ≡ route (record c { aggregator = r.0 }) m
routed-some c (a, o) m e = rw e

-- The frames' messages are final, under the id of the request in flight.
pub messages-Finals :
    (c : Client) (id : Text) (fs : List (ℕ × Frame))
    → c.active_msg_id ≡ some id
    → is_empty id ≡ false
    → All (λ p. IsFinalChat p.1) fs
    → Finals id (messages c fs)
unfolding is_final chat_message
messages-Finals c id [] a n h = tt
messages-Finals c id ((now, f) ∷ fs) a n h =
    ((eq_true f.state final h.0.closing, ground arith), messages-Finals c id fs a n h.1)

-- The state in which an aggregated message answers the request `id`.
pub record Asking (c : Client) (f : ℕ) (id : Text) : Type 0 where
  pub lock : c.send_lock ≡ some (f, id)
  pub pending : c.pending_future ≡ some f
  pub named : c.pending_future_msg_id ≡ some id
  pub open_ : get c.futures f ≡ some waiting
  pub in_time : same_id c.timed_out_msg_id (some id) ≡ false

pub answers :
    (c : Client) (f : ℕ) (id : Text) (m : ClawMessage)
    → Asking c f id
    → m.msg_id ≡ id
    → (get (route c m).0.futures f ≡ some (result m.text m.media_paths))
      × ((route c m).1 ≡ [])
      × ((route c m).0.send_lock ≡ some (f, id))
unfolding route answers_request set_pending pending_open
answers c f id m a e = ground (
  arith,
  get-put_self c.futures f (result m.text m.media_paths),
  eq_true id id refl,
  a.lock,
  a.pending,
  a.named,
  a.open_,
  a.in_time,
)

-- What the aggregator is given for a final chat event.
pub chat_message-final :
    (now : ℕ) (c : Client) (f : Frame)
    → IsFinalChat f
    → (is_final (chat_message now c f) ≡ true)
      × ((chat_message now c f).text ≡ clean_text (chat_text c f))
      × ((chat_message now c f).media_paths
          ≡ media_paths_of f.media_urls f.media_url (chat_text c f))
unfolding chat_message is_final
chat_message-final now c f h = let e = eq_true f.state final h.closing in (e, rw e, rw e)
