-- ===== src/Mattermost/Sequence.antt =====
-- The numbers of the messages that are sent, and the events that are handed on.
use claw_mux.Base.{
  ℕ, suc, ◌≤◌, ◌≡◌, refl, true, false, not, ◌&&◌, if-both, Option, none, some, List, [], ◌∷◌, All,
  All-append, arith, is_empty, strip, Bool-cases, inl, inr, Text, codes,
}
use claw_mux.Web.Made.{IfMade, bind-IfMade}
use claw_mux.Web.Json.{Json, str, get, get_or, text_of, truthy, index, ◌>>=◌}
use claw_mux.Mattermost.Posts.{
  Event, is_text, is_bot, decoded, kept, event_of, on_user, on_post, on_data, handle_ws_event,
}
use claw_mux.Mattermost.Socket.{
  Sent, authentication, user_typing, Adapter, new, log_in, logged_in, connect, dispatch, on_frame,
  send_typing, stop, is_open, Action, connected, frame, disconnected, typed, stopped, step, steps,
}

abbrev pub number : Sent → ℕ
number (authentication n) = n
number (user_typing n c p) = n

-- The numbers fall from the newest message on, and are at most `b`.
abbrev pub Falling : ℕ → List Sent → Type 0
Falling b [] = Unit
Falling b (m ∷ ms) = (n : ℕ) × (number m ≤ b) × (number m ≡ suc n) × Falling n ms

Falling-up : (b c : ℕ) (ms : List Sent) → b ≤ c → Falling b ms → Falling c ms
Falling-up b c [] h f = tt
Falling-up b c (m ∷ ms) h (n, l, e, f) = (n, omega arith, e, f)

module _ (bot : Option Text) where
  -- Somebody else's post, with a text or a file.
  abbrev pub IsHeard : Event → Type 0
  IsHeard e =
      (is_bot bot e.user_id ≡ false)
      × ((is_empty (strip e.text) && not (truthy e.file_ids)) ≡ false)

  abbrev Fine : Option (Option Event) → Type 0
  Fine o = IfMade IsHeard o

  kept-Fine : (e : Event) → is_bot bot e.user_id ≡ false → Fine (some (kept e))
  kept-Fine e h = elim (Bool-cases (is_empty (strip e.text) && not (truthy e.file_ids))) [
    | inl k ↦ rw k tt
    | inr k ↦ rw k (h, k)
  ]

  event_of-Fine : (post user : Json) → is_bot bot user ≡ false → Fine (event_of post user)
  event_of-Fine post user h =
      bind-IfMade IsHeard (get_or post (codes "channel_id") (str [])) _ λ channel.
        bind-IfMade IsHeard (get_or post (codes "message") (str [])) _ λ message.
          bind-IfMade IsHeard (get_or post (codes "id") (str [])) _ λ id.
            bind-IfMade IsHeard (get_or post (codes "root_id") (str [])) _ λ root.
              bind-IfMade IsHeard (get post (codes "file_ids")) _
                λ files. bind-IfMade IsHeard (text_of message) _ λ text. kept-Fine _ h

  on_user-Fine : (post user : Json) → Fine (on_user bot post user)
  on_user-Fine post user = elim (Bool-cases (is_bot bot user)) [
    | inl e ↦ rw e tt
    | inr e ↦ rw e (event_of-Fine post user e)
  ]

  on_post-Fine : (o : Option Json) → Fine (on_post bot o)
  on_post-Fine none = tt
  on_post-Fine (some post) =
      bind-IfMade IsHeard (get_or post (codes "user_id") (str [])) (on_user bot post)
        λ user. on_user-Fine post user

module _ (parse : Text → Option Json) (bot : Option Text) where
  handle-Fine : (data_ : Json) → Fine bot (handle_ws_event parse bot data_)
  unfolding handle_ws_event
  handle-Fine data_ = bind-IfMade (IsHeard bot) (get data_ (codes "event")) _ λ kind.
      if-both (Fine bot) (is_text kind (codes "posted"))
        (bind-IfMade (IsHeard bot) (get_or data_ (codes "data") _) _ λ event_data.
          bind-IfMade (IsHeard bot) (get event_data (codes "post")) (on_data parse bot) λ post.
            if-both (Fine bot) (truthy post)
              (bind-IfMade (IsHeard bot) (decoded parse post) (on_post bot) (on_post-Fine bot)) tt)
        tt

abbrev Inv : Option Text → Adapter → Type 0
Inv bot a = Falling a.ws_seq a.sent × (a.bot_user_id ≡ bot) × All (IsHeard bot) a.dispatched

module _ (parse : Text → Option Json) (bot : Option Text) where
  dispatch-Inv :
      (a : Adapter) (o : Option (Option Event)) → Fine bot o → Inv bot a → Inv bot (dispatch a o)
  dispatch-Inv a none f v = v
  dispatch-Inv a (some none) f v = v
  dispatch-Inv a (some (some e)) f (s, b, d) =
      if-both (Inv bot) a.has_handler
        (s, b, All-append (IsHeard bot) a.dispatched (e ∷ []) d (f, tt)) (s, b, d)

  on_frame-Inv : (a : Adapter) (f : Option Json) → Inv bot a → Inv bot (on_frame parse f a)
  on_frame-Inv a none v = v
  on_frame-Inv a (some data_) (s, b, d) =
      if-both (Inv bot) a.running (dispatch-Inv a _ (rw b (handle-Fine parse bot data_)) (s, b, d))
        (s, b, d)

  numbered :
      (a : Adapter) (m : Sent)
      → number m ≡ suc a.ws_seq
      → Falling a.ws_seq a.sent
      → Falling (suc a.ws_seq) (m ∷ a.sent)
  numbered a m h f = (a.ws_seq, omega arith, h, f)

  skipped : (a : Adapter) → Falling a.ws_seq a.sent → Falling (suc a.ws_seq) a.sent
  skipped a = Falling-up a.ws_seq (suc a.ws_seq) a.sent (omega arith)

  step-Inv : (x : Action) (a : Adapter) → Inv bot a → Inv bot (step parse x a)
  unfolding step connect send_typing stop
  step-Inv (connected sendable) a (s, b, d) =
      if-both (Inv bot) a.running
        (if-both (Inv bot) sendable (numbered a (authentication _) refl s, b, d)
          (skipped a s, b, d))
        (s, b, d)
  step-Inv (frame f) a v = on_frame-Inv a f v
  step-Inv disconnected a v = v
  step-Inv (typed channel parent sendable) a (s, b, d) =
      if-both (Inv bot) (not (is_open a.ws)) (s, b, d)
        (if-both (Inv bot) sendable (numbered a (user_typing _ channel parent) refl s, b, d)
          (skipped a s, b, d))
  step-Inv stopped a v = v

  steps-Inv : (xs : List Action) (a : Adapter) → Inv bot a → Inv bot (steps parse xs a)
  unfolding steps
  steps-Inv [] a v = v
  steps-Inv (x ∷ xs) a v = steps-Inv xs (step parse x a) (step-Inv x a v)

log_in-Inv : (me : Option Json) → Inv (log_in me new).bot_user_id (log_in me new)
unfolding log_in
log_in-Inv me = go (me >>= λ j. index j (codes "id") >>= text_of)
  where
    go :
        (o : Option Text)
        → let a = logged_in (record new { running = true; has_handler = true }) o in
          Inv a.bot_user_id a
    go none = (tt, refl, tt)
    go (some id) = (tt, refl, tt)

-- From the log-in on, whatever connections, frames and calls follow: the numbers of the messages on
-- the sockets rise strictly, also across connections and where sending fails, up to the counter.
-- The bot's id stays, and an event that is handed on is not the bot's own and has a text that is not
-- blank or files.
pub steps-log_in-Numbered :
    (parse : Text → Option Json) (me : Option Json) (xs : List Action)
    → let a = log_in me new in
      let b = steps parse xs a in
      Falling b.ws_seq b.sent
      × (b.bot_user_id ≡ a.bot_user_id)
      × All (IsHeard a.bot_user_id) b.dispatched
steps-log_in-Numbered parse me xs = steps-Inv parse _ xs (log_in me new) (log_in-Inv me)
