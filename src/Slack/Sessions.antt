-- ===== src/Slack/Sessions.antt =====
-- What the socket loop acknowledges, hands on and waits for.
use claw_mux.Base.{
  if-holds, ℕ, ◌*◌, ◌≤◌, ◌≡◌, refl, sym, ap, ◌∙◌, inl, inr, Bool, true, false, not, Bool-cases,
  if-both, Option, none, some, List, [], ◌∷◌, ◌++◌, append_assoc, append-nil, All, All-append,
  arith, if◌then◌else◌, Text, codes,
}
use claw_mux.Web.Made.{IfMade, bind-IfMade}
use claw_mux.Web.Json.{
  Json, str, arr, obj, nil, end, truthy, get, get_or, or_else, text_of, elements, ◌>>=◌,
}
use claw_mux.Slack.Events.{
  Event, is_ignored, is_own, is_supported, is_text, ids_of, channel_event, made, handle_events_api,
}
use claw_mux.Slack.Socket.{
  Adapter, new, start, parse_auth, Frame, dispatch, on_type, opened, header_of, decoded, on_frame,
  on_frames, Session, refused, closed, broken, min, connected, turn,
}

-- The loop, and how long it slept each time, in order.
unfoldable pub turns : List Session → Adapter → Adapter × List (Option ℕ)
turns [] a = (a, [])
turns (s ∷ ss) a = let (b, n) = turn s a in let (c, ns) = turns ss b in (c, n ∷ ns)

-- The envelope of a frame that has one and whose acknowledgement can be sent.
abbrev ack_of : Bool → Option (Json × Json) → List Json
ack_of sendable none = []
ack_of sendable (some (envelope, kind)) =
    if not (truthy envelope) then [] else if sendable then envelope ∷ [] else []

abbrev header : Option Json → Option (Json × Json)
header none = none
header (some message) = header_of message

unfoldable pub acks : List Frame → List Json
acks [] = []
acks (f ∷ fs) = ack_of f.is_sendable (header f.message) ++ acks fs

acks-append : (fs gs : List Frame) → acks (fs ++ gs) ≡ acks fs ++ acks gs
unfolding acks
acks-append [] gs = refl
acks-append (f ∷ fs) gs =
    ap (λ l. ack_of f.is_sendable (header f.message) ++ l) (acks-append fs gs)
    ∙ sym (append_assoc (ack_of f.is_sendable (header f.message)) (acks fs) (acks gs))

abbrev pub frames : Session → List Frame
frames refused = []
frames (closed fs) = fs
frames (broken fs) = fs

unfoldable pub frames_of : List Session → List Frame
frames_of [] = []
frames_of (s ∷ ss) = frames s ++ frames_of ss

module _ (bot : Text) where
  -- An event of another user than the bot.
  abbrev pub IsForeign : Event → Type 0
  IsForeign e = is_own bot e.user_id ≡ false

  abbrev Fine : Option (Option Event) → Type 0
  Fine o = IfMade IsForeign o

  abbrev IsFrom : Json → Option Event → Type 0
  IsFrom user none = Unit
  IsFrom user (some e) = e.user_id ≡ user

  bind-IsFrom :
      {A : Type 0} (user : Json) (m : Option A) (f : A → Option Event)
      → ((a : A) → IsFrom user (f a))
      → IsFrom user (m >>= f)
  bind-IsFrom user none f h = tt
  bind-IsFrom user (some a) f h = h a

  channel_event-IsFrom : (event user : Json) → IsFrom user (channel_event event user)
  channel_event-IsFrom event user =
      bind-IsFrom user (get_or event (codes "channel") (str [])) _ λ a.
        bind-IsFrom user (get event (codes "text")) _ λ b.
          bind-IsFrom user (text_of (or_else b (str []))) _ λ c.
            bind-IsFrom user (get_or event (codes "ts") (str [])) _ λ d.
              bind-IsFrom user (get event (codes "thread_ts")) _ λ e.
                bind-IsFrom user (get_or event (codes "files") (arr nil)) _
                  λ f. bind-IsFrom user (elements f) _ λ g. bind-IsFrom user (ids_of g) _ λ h. refl

  made-Fine :
      (user : Json) (o : Option Event) → is_own bot user ≡ false → IsFrom user o → Fine (made o)
  made-Fine user none h k = tt
  made-Fine user (some e) h k = ap (is_own bot) k ∙ h

  handle-Fine : (payload : Json) → Fine (handle_events_api bot payload)
  unfolding handle_events_api
  handle-Fine payload = bind-IfMade IsForeign (get_or payload (codes "event") (obj end)) _ λ event.
      bind-IfMade IsForeign (get event (codes "type")) _ λ kind.
        bind-IfMade IsForeign (get event (codes "subtype")) _ λ subtype.
          bind-IfMade IsForeign (get event (codes "user")) _
            λ user. if-both Fine (is_ignored subtype) tt (own event kind user)
    where
      own :
          (event kind user : Json)
          → Fine (
              if is_own bot user
              then some none
              else if is_supported kind
              then made (channel_event event user)
              else some none)
      own event kind user = elim (Bool-cases (is_own bot user)) [
        | inl e ↦ rw e tt
        | inr e ↦ rw e (
            if-both Fine (is_supported kind)
              (made-Fine user (channel_event event user) e (channel_event-IsFrom event user)) tt)
      ]

  -- A frame changes the two lists only.
  record Step (a b : Adapter) (ack : List Json) : Type 0 where
    bot_of : a.bot_user_id ≡ bot → b.bot_user_id ≡ bot
    running_of : b.running ≡ a.running
    delay_of : b.reconnect_delay ≡ a.reconnect_delay
    acks_of : b.acknowledged ≡ a.acknowledged ++ ack
    events_of : a.bot_user_id ≡ bot → All IsForeign a.dispatched → All IsForeign b.dispatched

  same-Step : (a : Adapter) → Step a a []
  same-Step a = record {
    bot_of = λ h. h;
    running_of = refl;
    delay_of = refl;
    acks_of = sym (append-nil a.acknowledged);
    events_of = λ h k. k;
  }

  dispatch-Step :
      (a : Adapter) (o : Option (Option Event))
      → (a.bot_user_id ≡ bot → Fine o)
      → Step a (dispatch a o) []
  dispatch-Step a none h = same-Step a
  dispatch-Step a (some none) h = same-Step a
  dispatch-Step a (some (some e)) h =
      if-both (λ b. Step a b []) a.has_handler
        (record {
          bot_of = λ k. k;
          running_of = refl;
          delay_of = refl;
          acks_of = sym (append-nil a.acknowledged);
          events_of = λ k d. All-append IsForeign a.dispatched (e ∷ []) d (h k, tt);
        })
        (same-Step a)

  on_type-Step : (a : Adapter) (message kind : Json) → Step a (on_type a message kind) []
  on_type-Step a message kind =
      if-both (λ b. Step a b []) (is_text kind (codes "events_api"))
        (dispatch-Step a
          (get_or message (codes "payload") (obj end) >>= handle_events_api a.bot_user_id)
          λ e.
            bind-IfMade IsForeign (get_or message (codes "payload") (obj end))
              (handle_events_api a.bot_user_id) λ p. rw e (handle-Fine p))
        (same-Step a)

  acknowledged-Step :
      (a b : Adapter) (envelope : Json)
      → Step (record a { acknowledged = a.acknowledged ++ envelope ∷ [] }) b []
      → Step a b (envelope ∷ [])
  acknowledged-Step a b envelope t = record {
    bot_of = t.bot_of;
    running_of = t.running_of;
    delay_of = t.delay_of;
    acks_of = t.acks_of ∙ append-nil (a.acknowledged ++ envelope ∷ []);
    events_of = t.events_of;
  }

  opened-Step :
      (a : Adapter) (message : Json) (sendable : Bool) (o : Option (Json × Json))
      → Step a (opened a message sendable o) (ack_of sendable o)
  opened-Step a message sendable none = same-Step a
  opened-Step a message sendable (some (envelope, kind)) = elim (Bool-cases (truthy envelope)) [
    | inr e ↦ rw e (on_type-Step a message kind)
    | inl e ↦ rw e (sent sendable)
  ]
    where
      sent :
          (sendable : Bool)
          → Step a
              (if sendable
                then on_type
                    (record a { acknowledged = a.acknowledged ++ envelope ∷ [] })
                    message
                    kind
                else a)
              (if sendable then envelope ∷ [] else [])
      sent true =
          acknowledged-Step a _ envelope (
            on_type-Step (record a { acknowledged = a.acknowledged ++ envelope ∷ [] }) message kind)
      sent false = same-Step a

  on_frame-Step :
      (a : Adapter) (f : Frame) → Step a (on_frame a f) (ack_of f.is_sendable (header f.message))
  unfolding on_frame
  on_frame-Step a f = go f.message
    where
      go : (o : Option Json) → Step a (decoded a f.is_sendable o) (ack_of f.is_sendable (header o))
      go none = same-Step a
      go (some message) = opened-Step a message f.is_sendable (header_of message)

  both-Step : (a b c : Adapter) (x y : List Json) → Step a b x → Step b c y → Step a c (x ++ y)
  both-Step a b c x y s t = record {
    bot_of = λ h. t.bot_of (s.bot_of h);
    running_of = t.running_of ∙ s.running_of;
    delay_of = t.delay_of ∙ s.delay_of;
    acks_of = t.acks_of ∙ ap (λ l. l ++ y) s.acks_of ∙ append_assoc a.acknowledged x y;
    events_of = λ h d. t.events_of (s.bot_of h) (s.events_of h d);
  }

  on_frames-Step :
      (a : Adapter) (fs : List Frame) → a.running ≡ true → Step a (on_frames a fs) (acks fs)
  unfolding on_frames acks
  on_frames-Step a [] r = same-Step a
  on_frames-Step a (f ∷ fs) r =
      let s = on_frame-Step a f in
      if-holds (λ b. Step a b (ack_of f.is_sendable (header f.message) ++ acks fs)) a.running a r
        (both-Step a (on_frame a f) (on_frames (on_frame a f) fs)
          (ack_of f.is_sendable (header f.message)) (acks fs) s
          (on_frames-Step (on_frame a f) fs (s.running_of ∙ r)))

  -- A sleep of at least one second and at most a minute.
  abbrev pub IsBounded : Option ℕ → Type 0
  IsBounded none = Unit
  IsBounded (some n) = (1 ≤ n) × (n ≤ 60)

  record Turned (a b : Adapter) (ack : List Json) (n : Option ℕ) : Type 0 where
    bot_of : b.bot_user_id ≡ bot
    running_of : b.running ≡ true
    delay_of : IsBounded (some b.reconnect_delay)
    acks_of : b.acknowledged ≡ a.acknowledged ++ ack
    events_of : All IsForeign a.dispatched → All IsForeign b.dispatched
    sleep_of : IsBounded n

  doubled : (n : ℕ) → IsBounded (some n) → IsBounded (some (min (n * 2) 60))
  doubled n h = (ground arith, ground arith)

  -- A session is a run of frames from a fresh connection.
  session-Step :
      (a : Adapter) (fs : List Frame)
      → a.running ≡ true
      → Step (connected a) (on_frames (connected a) fs) (acks fs)
  session-Step a fs r = on_frames-Step (connected a) fs r

  turn-Turned :
      (s : Session) (a : Adapter)
      → a.bot_user_id ≡ bot
      → a.running ≡ true
      → IsBounded (some a.reconnect_delay)
      → Turned a (turn s a).0 (acks (frames s)) (turn s a).1
  unfolding turn acks
  turn-Turned refused a h r d = record {
    bot_of = h;
    running_of = r;
    delay_of = doubled a.reconnect_delay d;
    acks_of = sym (append-nil a.acknowledged);
    events_of = λ k. k;
    sleep_of = d;
  }
  turn-Turned (closed fs) a h r d =
      let t = session-Step a fs r in
      record {
        bot_of = t.bot_of h;
        running_of = t.running_of ∙ r;
        delay_of = rw t.delay_of (omega arith, omega arith);
        acks_of = t.acks_of;
        events_of = λ k. t.events_of h k;
        sleep_of = tt;
      }
  turn-Turned (broken fs) a h r d =
      let t = session-Step a fs r in
      record {
        bot_of = t.bot_of h;
        running_of = t.running_of ∙ r;
        delay_of = rw t.delay_of (ground arith, ground arith);
        acks_of = t.acks_of;
        events_of = λ k. t.events_of h k;
        sleep_of = rw t.delay_of (omega arith, omega arith);
      }

  -- What holds of the loop after sessions, and of its sleeps.
  pub record Sound (a : Adapter) (ss : List Session) (r : Adapter × List (Option ℕ)) : Type 0 where
    pub acknowledged_of : r.0.acknowledged ≡ a.acknowledged ++ acks (frames_of ss)
    pub foreign : All IsForeign r.0.dispatched
    pub bounded : All IsBounded r.1

  turns-Sound :
      (ss : List Session) (a : Adapter)
      → a.bot_user_id ≡ bot
      → a.running ≡ true
      → IsBounded (some a.reconnect_delay)
      → All IsForeign a.dispatched
      → Sound a ss (turns ss a)
  unfolding turns frames_of acks
  turns-Sound [] a h r d e = record {
    acknowledged_of = sym (append-nil a.acknowledged);
    foreign = e;
    bounded = tt;
  }
  turns-Sound (s ∷ ss) a h r d e =
      let t = turn-Turned s a h r d in
      let u = turns-Sound ss (turn s a).0 t.bot_of t.running_of t.delay_of (t.events_of e) in
      record {
        acknowledged_of =
            u.acknowledged_of
            ∙ ap (λ l. l ++ acks (frames_of ss)) t.acks_of
            ∙ append_assoc a.acknowledged (acks (frames s)) (acks (frames_of ss))
            ∙ ap (λ l. a.acknowledged ++ l) (sym (acks-append (frames s) (frames_of ss)));
        foreign = u.foreign;
        bounded = (t.sleep_of, u.bounded);
      }

-- After a log-in, whatever sessions follow, with connections that are refused, closed or broken and
-- frames of any content: every envelope whose acknowledgement can be sent has been acknowledged
-- once and in order, no message of the bot itself is handed on, and every wait
-- before a new connection is from one second to a minute.
pub sessions-Sound :
    (bot : Text) (auth : Json) (ss : List Session)
    → parse_auth auth ≡ some bot
    → Sound bot (start (some auth) new).1 ss (turns ss (start (some auth) new).1)
unfolding start
sessions-Sound bot auth ss h = rw h (turns-Sound bot ss _ refl refl (omega arith, omega arith) tt)
