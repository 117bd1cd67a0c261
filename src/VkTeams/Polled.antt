-- ===== src/VkTeams/Polled.antt =====
-- The events that the loop of polls hands on.
use claw_mux.Base.{
  ◌≡◌, refl, sym, ap, ◌∙◌, ◌⊎◌, inl, inr, Bool, true, false, Bool-cases, if-both, if-holds, Option,
  none, some, List, [], ◌∷◌, ◌++◌, append_assoc, append-nil, All, All-append, nat_eq, if◌then◌else◌,
  Text, codes, ok,
}
use claw_mux.Web.Json.{Json, num, bool, str, arr, obj, nil, get, get_or, elements}
use claw_mux.Web.Made.{IfMade, bind-IfMade}
use claw_mux.Mattermost.Posts.{is_text}
use claw_mux.Telegram.Update.{get_dict}
use claw_mux.Telegram.Poll.{Answer, failed, response}
use claw_mux.VkTeams.Message.{
  Message, is_own, str_or, message_of, file_ids_of, root_from, new_message, handle_event,
}
use claw_mux.VkTeams.Poll.{
  Adapter, new, start, logged_in, read_self, dispatch, handle_events, after_batch, poll_events,
  events_of, poll_turn,
}

-- A message of another user than the bot.
abbrev pub IsForeign : Text → Message → Type 0
IsForeign bot m = is_own bot m.user_id ≡ false

module _ (render : Json → Text) where
  -- The loop while `running`, with the answers of its requests.
  unfoldable pub turns : List Answer → Adapter → Adapter
  turns [] a = a
  turns (x ∷ xs) a = let b = turns xs (poll_turn render x a).0 in if a.running then b else a

  -- The events of a batch, up to the first that raises.
  abbrev until : Option (Option Message) → List Message → List Message
  until none ms = []
  until (some none) ms = ms
  until (some (some m)) ms = m ∷ ms

  unfoldable pub readable : Text → List Json → List Message
  readable bot [] = []
  readable bot (ev ∷ evs) = until (handle_event render bot ev) (readable bot evs)

  abbrev batch : Text → Option (List Json) → List Message
  batch bot none = []
  batch bot (some evs) = readable bot evs

  abbrev pub answered : Text → Answer → List Message
  answered bot failed = []
  answered bot (response status body) =
      if nat_eq status 200 then batch bot (events_of render body) else []

  unfoldable pub received : Text → List Answer → List Message
  received bot [] = []
  received bot (x ∷ xs) = answered bot x ++ received bot xs

  module _ (bot : Text) where
    -- The loop runs, with its handler.
    abbrev Ready : Adapter → Type 0
    Ready a = (a.running ≡ true) × (a.has_handler ≡ true) × (a.bot_user_id ≡ bot)

    abbrev Step : Adapter → Adapter → List Message → Type 0
    Step a b ms = Ready b × (b.dispatched ≡ a.dispatched ++ ms)

    same-Step : (a : Adapter) → Ready a → Step a a []
    same-Step a r = (r, sym (append-nil a.dispatched))

    -- An event without `get` raises in both places.
    ids :
        (ev d : Json)
        → ((get_or ev (codes "eventId") d ≡ none) × (handle_event render bot ev ≡ none))
          ⊎ ((id : Json) × (get_or ev (codes "eventId") d ≡ some id))
    unfolding handle_event get_or
    ids Json.null d = inl (refl, refl)
    ids (bool b) d = inl (refl, refl)
    ids (num n) d = inl (refl, refl)
    ids (Json.number t) d = inl (refl, refl)
    ids (str t) d = inl (refl, refl)
    ids (arr js) d = inl (refl, refl)
    ids (obj fs) d = inr (_, refl)

    handle_events-Step :
        (evs : List Json) (a : Adapter)
        → Ready a
        → Step a (handle_events render evs a).0 (readable bot evs)
    unfolding handle_events readable
    handle_events-Step [] a r = same-Step a r
    handle_events-Step (ev ∷ evs) a (s, h, b) = elim (ids ev a.last_event_id) [
      | inl (e, k) ↦ rw e (rw k (same-Step a (s, h, b)))
      | inr (id, e) ↦ rw e (
          go id (handle_event render a.bot_user_id ev) (handle_event render bot ev)
            (ap (λ t. handle_event render t ev) (sym b)) (handle_events-Step evs))
    ]
      where
        go :
            (id : Json) (o p : Option (Option Message))
            → p ≡ o
            → ((b : Adapter) → Ready b → Step b (handle_events render evs b).0 (readable bot evs))
            → let (b, raised) = dispatch render (record a { last_event_id = id }) o in
              Step a
                (if raised then (b, true) else handle_events render evs b).0
                (until p (readable bot evs))
        go id none p e rest = rw e ((s, h, b), sym (append-nil a.dispatched))
        go id (some none) p e rest = rw e (rest (record a { last_event_id = id }) (s, h, b))
        go id (some (some m)) p e rest = rw e (
            if-holds (λ c. Step a (handle_events render evs c).0 (m ∷ readable bot evs))
              a.has_handler _ h
              (let (r, q) =
                  rest (record a { last_event_id = id; dispatched = a.dispatched ++ m ∷ [] })
                    (s, h, b) in
                (r, q ∙ append_assoc a.dispatched (m ∷ []) (readable bot evs))))

    after_batch-first : (p : Adapter × Bool) → (after_batch render p).0 ≡ p.0
    after_batch-first (a, false) = refl
    after_batch-first (a, true) = refl

    poll_events-Step :
        (a : Adapter) (o : Option (List Json))
        → Ready a
        → Step a (poll_events render a o).0 (batch bot o)
    poll_events-Step a none r = same-Step a r
    poll_events-Step a (some evs) r =
        rw (after_batch-first (handle_events render evs a)) (handle_events-Step evs a r)

    poll_turn-Step :
        (x : Answer) (a : Adapter) → Ready a → Step a (poll_turn render x a).0 (answered bot x)
    unfolding poll_turn
    poll_turn-Step failed a r = same-Step a r
    poll_turn-Step (response status body) a r = elim (Bool-cases (nat_eq status 200)) [
      | inl e ↦ rw e (poll_events-Step a (events_of render body) r)
      | inr e ↦ rw e (same-Step a r)
    ]

    turns-Step : (xs : List Answer) (a : Adapter) → Ready a → Step a (turns xs a) (received bot xs)
    unfolding turns received
    turns-Step [] a r = same-Step a r
    turns-Step (x ∷ xs) a (s, h, b) =
        let (r, e) = poll_turn-Step x a (s, h, b) in
        let (q, f) = turns-Step xs (poll_turn render x a).0 r in
        if-holds (λ c. Step a c (received bot (x ∷ xs))) a.running a s
          ((
            q,
            f
                ∙ ap (λ l. l ++ received bot xs) e
                ∙ append_assoc a.dispatched (answered bot x) (received bot xs),
          ))

    message_of-IsForeign :
        (payload : Json) (sender chat id text : Text)
        → is_own bot sender ≡ false
        → IfMade (IsForeign bot) (message_of render payload sender chat id text)
    message_of-IsForeign payload sender chat id text h =
        bind-IfMade (IsForeign bot) (get_or payload (codes "parts") (arr nil)) _ λ field.
          bind-IfMade (IsForeign bot) (elements field) _ λ parts.
            bind-IfMade (IsForeign bot) (file_ids_of render parts) _
              λ files. bind-IfMade (IsForeign bot) (root_from render [] parts) _ λ root. h

    new_message-IsForeign :
        (payload : Json) → IfMade (IsForeign bot) (new_message render bot payload)
    new_message-IsForeign payload =
        bind-IfMade (IsForeign bot) (get_dict payload (codes "from")) _ λ sender.
          bind-IfMade (IsForeign bot) (get sender (codes "userId")) _ λ user.
            bind-IfMade (IsForeign bot) (get_dict payload (codes "chat")) _ λ chat.
              bind-IfMade (IsForeign bot) (get chat (codes "chatId")) _ λ chat_id.
                bind-IfMade (IsForeign bot) (get payload (codes "msgId")) _ λ id.
                  bind-IfMade (IsForeign bot) (get payload (codes "text")) _ λ text.
                    elim (Bool-cases (is_own bot (str_or render user []))) [
                      | inl e ↦ rw e tt
                      | inr e ↦ rw e (message_of-IsForeign payload _ _ _ _ e)
                    ]

    handle_event-IsForeign : (ev : Json) → IfMade (IsForeign bot) (handle_event render bot ev)
    unfolding handle_event
    handle_event-IsForeign ev = bind-IfMade (IsForeign bot) (get ev (codes "type")) _ λ kind.
        bind-IfMade (IsForeign bot) (get_dict ev (codes "payload")) _ λ payload.
          if-both (IfMade (IsForeign bot)) (is_text kind (codes "newMessage"))
            (new_message-IsForeign payload) tt

    readable-IsForeign : (evs : List Json) → All (IsForeign bot) (readable bot evs)
    unfolding readable
    readable-IsForeign [] = tt
    readable-IsForeign (ev ∷ evs) =
        go (handle_event render bot ev) (handle_event-IsForeign ev) (readable-IsForeign evs)
      where
        go :
            (o : Option (Option Message))
            → IfMade (IsForeign bot) o
            → All (IsForeign bot) (readable bot evs)
            → All (IsForeign bot) (until o (readable bot evs))
        go none h rest = tt
        go (some none) h rest = rest
        go (some (some m)) h rest = (h, rest)

    batch-IsForeign : (o : Option (List Json)) → All (IsForeign bot) (batch bot o)
    batch-IsForeign none = tt
    batch-IsForeign (some evs) = readable-IsForeign evs

    answered-IsForeign : (x : Answer) → All (IsForeign bot) (answered bot x)
    answered-IsForeign failed = tt
    answered-IsForeign (response status body) =
        if-both (All (IsForeign bot)) (nat_eq status 200) (batch-IsForeign (events_of render body))
          tt

    received-IsForeign : (xs : List Answer) → All (IsForeign bot) (received bot xs)
    unfolding received
    received-IsForeign [] = tt
    received-IsForeign (x ∷ xs) =
        All-append (IsForeign bot) (answered bot x) (received bot xs) (answered-IsForeign x)
          (received-IsForeign xs)

  logged_in-Ready :
      (o : Option Text) (a : Adapter)
      → a.running ≡ true
      → a.has_handler ≡ true
      → (logged_in render a o).0 ≡ ok tt
      → Ready (logged_in render a o).1.bot_user_id (logged_in render a o).1
  logged_in-Ready none a r h e = cc
  logged_in-Ready (some id) a r h e = (r, h, refl)

  logged_in-dispatched :
      (o : Option Text) (a : Adapter) → (logged_in render a o).1.dispatched ≡ a.dispatched
  logged_in-dispatched none a = refl
  logged_in-dispatched (some id) a = refl

  -- If the log-in succeeds, then whatever the requests of the loop are answered: the events that are
  -- handed on are those of the answers with status 200, in order, of each answer those before the
  -- first event that raises. None of them is a message of the bot's own.
  pub turns-exact :
      (me : Answer) (xs : List Answer)
      → (start render me new).0 ≡ ok tt
      → let a = (start render me new).1 in
        ((turns xs a).dispatched ≡ received a.bot_user_id xs)
        × All (IsForeign a.bot_user_id) (turns xs a).dispatched
  unfolding start
  turns-exact me xs h =
      let ready = record new { running = true; has_handler = true } in
      let o = read_self render me in
      let a = (logged_in render ready o).1 in
      let e =
        (turns-Step a.bot_user_id xs a (logged_in-Ready o ready refl refl h)).1
        ∙ ap (λ l. l ++ received a.bot_user_id xs) (logged_in-dispatched o ready) in
      (e, rw e (received-IsForeign a.bot_user_id xs))
