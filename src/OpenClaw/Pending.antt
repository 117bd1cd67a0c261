-- ===== src/OpenClaw/Pending.antt =====
-- The fields of the request in flight, and what keeps them together.
use claw_mux.Base.{
  ℕ, ◌<◌, ◌≡◌, refl, sym, ◌∙◌, Bool, true, false, Option, none, some, List, [], arith, Bool-cases,
  inl, inr, ◌==◌, nat_eq_iff, text_key, nat_key, Text, if◌then◌else◌, is_some, if-both, if-true,
  and_true, codes, ◌++◌, ◌⊎◌, ◌&&◌,
}
use claw_mux.Base.Dict.{Dict, get, put, get-put}
use claw_mux.Aggregator.{ClawMessage, ClawAggregator, add_event}
use claw_mux.OpenClaw.State.{
  Client, Future, Output, waiting, result, exception, pending_open, set_pending, initial, truthy,
  same_id,
}
use claw_mux.OpenClaw.Frame.{Frame}
use claw_mux.OpenClaw.Dispatch.{
  on_res, on_assistant, on_lifecycle, on_agent, on_chat, on_cron, dispatch, route, answers_request,
  chat_message,
}
use claw_mux.OpenClaw.Actions.{begin_send, end_listen}
use claw_mux.OpenClaw.Futures.{dispatch-cases}

pub record Inv (c : Client) : Type 0 where
  pub fresh : (f : ℕ) (v : Future) → get c.futures f ≡ some v → f < c.next_future
  pub active : c.active_msg_id ≡ c.pending_future_msg_id
  pub unlocked : c.send_lock ≡ none → c.pending_future ≡ none
  pub unnamed : c.pending_future ≡ none → c.pending_future_msg_id ≡ none
  pub paired :
      (g f : ℕ) (id : Text)
      → c.pending_future ≡ some g
      → c.send_lock ≡ some (f, id)
      → (g ≡ f) × (c.pending_future_msg_id ≡ some id)
  pub held : (f : ℕ) (id : Text) → c.send_lock ≡ some (f, id) → is_some (get c.futures f) ≡ true

pub initial-Inv : (callback : Bool) → Inv (initial callback)
unfolding initial get
initial-Inv callback = record {
  fresh = λ f v h. cc;
  active = refl;
  unlocked = λ h. refl;
  unnamed = λ h. refl;
  paired = λ g f id h. cc;
  held = λ f id h. cc;
}

module _ (c : Client) (v : Inv c) where
  set_pending-Inv :
      (w : Future)
      → pending_open c ≡ true
      → (o : Option ℕ) → c.pending_future ≡ o
      → Inv (set_pending c w)
  unfolding set_pending pending_open
  set_pending-Inv w h none e = cc
  set_pending-Inv w h (some g) e = record {
    fresh = λ f u k.
        ground (arith, v.fresh f u, get-put c.futures g f w, v.fresh g waiting, nat_eq_iff g f);
    active = v.active;
    unlocked = v.unlocked;
    unnamed = v.unnamed;
    paired = v.paired;
    held = λ f id k. ground (arith, v.held f id k, get-put c.futures g f w);
  }

  -- The other fields do not matter.
  pub other-Inv :
      (ws : Option Bool) (connected : Bool) (listening : Option Bool) (timed_out : Option Text)
      (texts : Dict Text Text) (a : ClawAggregator)
      → Inv (record c {
        ws = ws;
        connected = connected;
        listening = listening;
        timed_out_msg_id = timed_out;
        agent_texts = texts;
        aggregator = a;
      })
  other-Inv ws connected listening timed_out texts a = record {
    fresh = v.fresh;
    active = v.active;
    unlocked = v.unlocked;
    unnamed = v.unnamed;
    paired = v.paired;
    held = v.held;
  }

  -- The request is dropped; the lock stays or is released.
  pub dropped-Inv :
      (l : Option (ℕ × Text)) (streaming : Bool)
      → (l ≡ none) ⊎ (l ≡ c.send_lock)
      → Inv (record c {
        active_msg_id = none;
        pending_future = none;
        pending_future_msg_id = none;
        active_on_stream = streaming;
        send_lock = l;
      })
  dropped-Inv l streaming h = record {
    fresh = v.fresh;
    active = refl;
    unlocked = λ _. refl;
    unnamed = λ _. refl;
    paired = λ g f id e k. cc;
    held = λ f id e. elim h [ inl n ↦ cc | inr s ↦ v.held f id (sym s ∙ e) ];
  }

  pub begin_send-Inv : (id : Text) (b : Bool) → Inv (begin_send c id b).0
  unfolding begin_send
  begin_send-Inv id b = record {
    fresh = λ f u k.
        ground (
          arith,
          v.fresh f u,
          get-put c.futures c.next_future f waiting,
          nat_eq_iff c.next_future f,
        );
    active = refl;
    unlocked = λ e. cc;
    unnamed = λ e. cc;
    paired = λ g f i e k. (cc, cc);
    held = λ f i k.
        ground (arith, get-put c.futures c.next_future f waiting, nat_eq_iff c.next_future f);
  }

pub answers-open :
    (c : Client) (m : ClawMessage) → answers_request c m ≡ true → pending_open c ≡ true
unfolding answers_request
answers-open c m h = ground arith

module _ (c : Client) (v : Inv c) where
  pub set-Inv : (w : Future) → pending_open c ≡ true → Inv (set_pending c w)
  set-Inv w h = set_pending-Inv c v w h c.pending_future refl

  res-Inv : (fr : Frame) → Inv (on_res c fr).0
  unfolding on_res
  res-Inv fr = elim (Bool-cases (pending_open c)) [
    | inl o ↦ rw o (
        if-both (λ (r : Client × List Output). Inv r.0) fr.ok v
          (drop (set-Inv (result (codes "[Error: " ++ fr.error ++ codes "]") []) o)))
    | inr o ↦ rw o (
        if-both (λ (r : Client × List Output). Inv r.0) fr.ok v
          (dropped-Inv c v c.send_lock c.active_on_stream (inr refl)))
  ]
    where
      drop :
          {d : Client}
          → Inv d
          → Inv (record d {
            active_msg_id = none;
            pending_future = none;
            pending_future_msg_id = none;
          })
      drop {d} w = dropped-Inv d w d.send_lock d.active_on_stream (inr refl)

  failing-Inv : (b : Bool) (w : Future) → Inv (if b && pending_open c then set_pending c w else c)
  failing-Inv b w =
      if-true Inv (b && pending_open c) (λ t. set-Inv w (and_true b (pending_open c) t).1) v

  agent-Inv : (fr : Frame) → Inv (on_agent c fr).0
  unfolding on_agent on_assistant on_lifecycle
  agent-Inv fr =
      if-both P (fr.stream == codes "assistant")
        (if-both P _
          (other-Inv c v c.ws c.connected c.listening c.timed_out_msg_id
            (put c.agent_texts fr.run_id fr.data_text) c.aggregator)
          v)
        (if-both P (fr.stream == codes "lifecycle")
          (if-both P (fr.data_phase == codes "error") (failing-Inv (truthy c.active_msg_id) _)
            (if-both P (fr.data_phase == codes "end") v v))
          v)
    where
      P : Client × List Output → Type 0
      P r = Inv r.0

  pub dispatch-Inv : (now : ℕ) (fr : Frame) → Inv (dispatch now c fr).0
  unfolding on_chat on_cron
  dispatch-Inv now fr =
      dispatch-cases (λ r. Inv r.0) now c fr v (res-Inv fr) (agent-Inv fr)
        (other-Inv c v c.ws c.connected c.listening c.timed_out_msg_id c.agent_texts
          (add_event c.aggregator (chat_message now c fr)))
        v

  pub route-Inv : (m : ClawMessage) → Inv (route c m).0
  unfolding route
  route-Inv m = elim (Bool-cases (answers_request c m)) [
    | inl a ↦ rw a (set-Inv (result m.text m.media_paths) (answers-open c m a))
    | inr a ↦ rw a (
        if-both Inv (same_id c.timed_out_msg_id (some m.msg_id))
          (other-Inv c v c.ws c.connected c.listening none c.agent_texts c.aggregator) v)
  ]

  pub end_listen-Inv : Inv (end_listen c)
  unfolding end_listen
  end_listen-Inv =
      let w = other-Inv c v c.ws false (some false) c.timed_out_msg_id [] c.aggregator in
      if-true Inv (pending_open c) (λ t. set-Inv2 w t) w
    where
      set-Inv2 :
          Inv (record c { connected = false; agent_texts = []; listening = some false })
          → pending_open c ≡ true
          → Inv (
              set_pending
                (record c { connected = false; agent_texts = []; listening = some false })
                exception)
      set-Inv2 w t = set_pending-Inv _ w exception (unfold pending_open in t) c.pending_future refl
