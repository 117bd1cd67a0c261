-- ===== src/Teams/Addresses.antt =====
-- The addresses that the adapter keeps, and where it sends its access token.
use claw_mux.Base.{
  ℕ, ◌+◌, ◌-◌, ◌≤◌, ◌≡◌, refl, sym, ap, ◌∙◌, inl, inr, ◌⊎◌, Bool, true, false, not, ◌&&◌, if-both,
  Option, none, some, some-inj, List, [], ◌∷◌, ◌++◌, length, All, All-append, arith, length-append,
  append_assoc, append-nil, text_key, is_empty, ltb, Text, codes, Result, ok, err,
}
use claw_mux.Base.Dict.{Dict, get, pop}
use claw_mux.Base.Exec.{◌>>=◌, ◌>>◌}
use claw_mux.Base.Hoare.{Post, Triple, Triple-if, Triple-bind, Triple-catch}
use claw_mux.Web.Text.{rstrip_chars}
use claw_mux.Teams.Auth.{Settings, is_allowed_service_url}
use claw_mux.Teams.Adapter.{
  Adapter, Request, oauth, post, put, message, typing, Token, no_token, token, max_service_urls,
  default_service_url, is_slash, to_end, evict, recorded, used, register_service_url,
  get_service_url, Run, send, keep_token, fetch_token, get_access_token, start, service_url,
  activities_of, answer_of, answered, send_reply, update_reply, send_typing, send_post_with_files,
  reply_to, stop, new, Action, activity_from, started, replied, edited, typed, shared, stopped,
  or_same, step, steps,
}
use claw_mux.Teams.Kept.{All-pop, All-drop, All-get, length-evict, length-pop_known}

module _ (is_valid : Text → Bool) (s : Settings) where
  -- What remains of an allowed address without its last slashes.
  abbrev pub IsTrusted : Text → Type 0
  IsTrusted base =
      (url : Text) × (base ≡ rstrip_chars is_slash url)
      × (is_allowed_service_url is_valid s url ≡ some true)

  abbrev pub IsBase : Text → Type 0
  IsBase base = (base ≡ default_service_url) ⊎ IsTrusted base

  abbrev pub IsUnder : Text → Type 0
  IsUnder url =
      (base : Text) × (path : Text) × (url ≡ base ++ codes "/v3/conversations/" ++ path)
      × IsBase base

  append-IsUnder : (url t : Text) → IsUnder url → IsUnder (url ++ t)
  append-IsUnder url t (base, path, e, b) = (
    base,
    path ++ t,
    ap (λ u. u ++ t) e ∙ append_assoc (base ++ codes "/v3/conversations/") path t,
    b,
  )

  -- A request with the access token goes to a conversation of a trusted address.
  abbrev pub IsSafe : Request → Type 0
  IsSafe (oauth id secret) = Unit
  IsSafe (post url t a) = IsUnder url
  IsSafe (put url t a) = IsUnder url

  pub record Inv (a : Adapter) : Type 0 where
    pub trusted : All (λ e. IsTrusted e.1) a.service_urls
    pub bounded : length a.service_urls ≤ max_service_urls
    pub safe : All IsSafe a.sent

  new-Inv : (id password : Text) → Inv (new id password)
  unfolding new
  new-Inv id password = record { trusted = tt; bounded = omega arith; safe = tt }

  to_end-Trusted :
      (d : Dict Text Text) (k u : Text)
      → All (λ e. IsTrusted e.1) d
      → IsTrusted u
      → All (λ e. IsTrusted e.1) (to_end d k u)
  unfolding to_end
  to_end-Trusted d k u h t =
      All-append (λ e. IsTrusted e.1) (pop d k) ((k, u) ∷ []) (All-pop (λ e. IsTrusted e.1) d k h)
        (t, tt)

  recorded-Inv :
      (a b : Adapter) (conversation url : Text) (o : Option Bool)
      → is_allowed_service_url is_valid s url ≡ o
      → recorded a conversation url o ≡ some b
      → Inv a
      → Inv b
  recorded-Inv a b conversation url none e h i = cc
  recorded-Inv a b conversation url (some false) e h i = rw (sym (some-inj h)) i
  recorded-Inv a b conversation url (some true) e h i = rw (sym (some-inj h)) (record {
    trusted =
        unfold evict in
        All-drop (λ e. IsTrusted e.1)
          (length (to_end a.service_urls conversation (rstrip_chars is_slash url))
            - max_service_urls)
          _
          (to_end-Trusted a.service_urls conversation (rstrip_chars is_slash url) i.trusted
            (url, refl, e));
    bounded =
        length-evict max_service_urls
          (to_end a.service_urls conversation (rstrip_chars is_slash url));
    safe = i.safe;
  })

  used-Inv :
      (conversation : Text) (a : Adapter) (o : Option Text)
      → get a.service_urls conversation ≡ o
      → Inv a
      → IsBase (used a conversation o).0 × Inv (used a conversation o).1
  used-Inv conversation a none e i = (inl refl, i)
  used-Inv conversation a (some url) e i = (
    inr known,
    record {
      trusted = to_end-Trusted a.service_urls conversation url i.trusted known;
      bounded =
          unfold to_end in
          omega (
            arith,
            length-append (pop a.service_urls conversation) ((conversation, url) ∷ []),
            length-pop_known a.service_urls conversation url e,
            i.bounded,
          );
      safe = i.safe;
    },
  )
    where
      known : IsTrusted url
      known = (All-get (λ e. IsTrusted e.1) a.service_urls conversation url i.trusted e).1

  module _ (ask : List Request → Token) (reply : List Request → Option Text) (now : ℕ) where
    abbrev Keeps : {A : Type 0} → Run ask reply now A → Type 0
    Keeps m = Triple Inv m (λ a. Inv) (λ e. Inv)

    service_url-Inv :
        (conversation : Text)
        → Triple Inv
            (service_url ask reply now conversation)
            (λ url a. IsBase url × Inv a)
            (λ e. Inv)
    unfolding get_service_url
    service_url-Inv conversation = record {
      run = λ a i. used-Inv conversation a (get a.service_urls conversation) refl i;
    }

    keep_token-Keeps : (t : Token) → Keeps (keep_token ask reply now t)
    keep_token-Keeps no_token = record { run = λ a i. i }
    keep_token-Keeps (token t none) = record {
      run = λ a i. record { trusted = i.trusted; bounded = i.bounded; safe = i.safe };
    }
    keep_token-Keeps (token t (some n)) = record {
      run = λ a i. record { trusted = i.trusted; bounded = i.bounded; safe = i.safe };
    }

    fetch_token-Keeps : Keeps (fetch_token ask reply now)
    fetch_token-Keeps = record {
      run = λ a i.
          let b = record a { sent = oauth a.app_id a.app_password ∷ a.sent } in
          (keep_token-Keeps (ask b.sent)).run b
            (record { trusted = i.trusted; bounded = i.bounded; safe = (tt, i.safe) });
    }

    get_access_token-Keeps : Keeps (get_access_token ask reply now)
    unfolding get_access_token
    get_access_token-Keeps = record {
      run = λ a i.
          if-both (Post (λ x. Inv) (λ e. Inv))
            (not (is_empty a.access_token) && ltb (now + 60) a.token_expires_at) i
            (fetch_token-Keeps.run a i);
    }

    -- A request to a path of a conversation.
    send-Keeps :
        (r : Request) (base : Text)
        → (IsBase base → IsSafe r)
        → Triple (λ a. IsBase base × Inv a) (send ask reply now r) (λ x. Inv) (λ e. Inv)
    send-Keeps r base safe = record {
      run =
          λ a (b, i). record { trusted = i.trusted; bounded = i.bounded; safe = (safe b, i.safe) };
    }

    answer_of-Keeps : (o : Option Text) → Keeps (answer_of ask reply now o)
    answer_of-Keeps none = record { run = λ a i. i }
    answer_of-Keeps (some id) = record { run = λ a i. i }

    answered-Keeps : Keeps (answered ask reply now)
    answered-Keeps = record { run = λ a i. (answer_of-Keeps (reply a.sent)).run a i }

    -- What every call does: the token, the address, the request, and then `rest`.
    abbrev call :
        {A : Type 0} → Text → (Text → Text → Request) → Run ask reply now A → Run ask reply now A
    call channel request rest = do
      t ← get_access_token ask reply now
      url ← service_url ask reply now channel
      send ask reply now (request url t)
      rest

    call-Keeps :
        {A : Type 0} (channel : Text) (request : Text → Text → Request) (rest : Run ask reply now A)
        → ((url t : Text) → IsBase url → IsSafe (request url t))
        → Keeps rest
        → Keeps (call channel request rest)
    call-Keeps channel request rest safe k =
        Triple-bind (get_access_token ask reply now) _ get_access_token-Keeps λ t.
          Triple-bind (service_url ask reply now channel) _ (service_url-Inv channel) λ url.
            Triple-bind (send ask reply now (request url t)) _
              (send-Keeps (request url t) url (safe url t)) λ x. k

    activities-IsUnder :
        (url channel : Text) → IsBase url → IsUnder (activities_of ask reply now url channel)
    activities-IsUnder url channel b =
        let root = url ++ codes "/v3/conversations/" in
        append-IsUnder (root ++ channel) (codes "/activities")
          (append-IsUnder root channel (url, [], sym (append-nil root), b))

    send_reply-Keeps :
        (channel text root : Text) → Keeps (send_reply ask reply now channel text root)
    unfolding send_reply
    send_reply-Keeps channel text root =
        Triple-catch _ _
          (call-Keeps channel
            (λ url t.
              post (activities_of ask reply now url channel) t
                (message text (reply_to ask reply now root)))
            _ (λ url t b. activities-IsUnder url channel b) answered-Keeps)
          λ e. record { run = λ a i. i }

    update_reply-Keeps :
        (id text channel : Text) → Keeps (update_reply ask reply now id text channel)
    unfolding update_reply
    update_reply-Keeps id text channel =
        Triple-if (is_empty id) (λ h. record { run = λ a i. i })
          λ h.
            Triple-if (is_empty channel) (λ h. record { run = λ a i. i })
              λ h.
                Triple-catch _ _
                  (call-Keeps channel
                    (λ url t.
                      put (activities_of ask reply now url channel ++ codes "/" ++ id) t
                        (message text none))
                    _
                    (λ url t b.
                      append-IsUnder (activities_of ask reply now url channel ++ codes "/") id (
                        append-IsUnder (activities_of ask reply now url channel) (codes "/")
                          (activities-IsUnder url channel b)))
                    (Triple-bind (answered ask reply now) _ answered-Keeps
                      λ x. record { run = λ a i. i }))
                  λ e. record { run = λ a i. i }

    send_typing-Keeps : (channel : Text) → Keeps (send_typing ask reply now channel)
    unfolding send_typing
    send_typing-Keeps channel =
        Triple-catch _ _
          (call-Keeps channel (λ url t. post (activities_of ask reply now url channel) t typing) _
            (λ url t b. activities-IsUnder url channel b)
            (Triple-bind (answered ask reply now) _ answered-Keeps λ x. record { run = λ a i. i }))
          λ e. record { run = λ a i. i }

  module _ (ask : List Request → Token) (reply : List Request → Option Text) where
    same-Inv : (a b : Adapter) → b.service_urls ≡ a.service_urls → b.sent ≡ a.sent → Inv a → Inv b
    same-Inv a b e f i = record {
      trusted = rw e i.trusted;
      bounded = omega (arith, ap (λ (d : Dict Text Text). length d) e, i.bounded);
      safe = rw f i.safe;
    }

    after :
        {A : Type 0} (r : Result (Unit {0}) A × Adapter)
        → Post {E = Unit {0}} (λ x. Inv) (λ e. Inv) r
        → Inv r.1
    after (ok x, a) i = i
    after (err e, a) i = i

    or_same-Inv :
        (a : Adapter) (o : Option Adapter)
        → Inv a
        → ((b : Adapter) → o ≡ some b → Inv b)
        → Inv (or_same a o)
    or_same-Inv a none i h = i
    or_same-Inv a (some b) i h = h b refl

    step-Inv : (x : Action) (a : Adapter) → Inv a → Inv (step is_valid s ask reply x a)
    unfolding step register_service_url start stop send_post_with_files
    step-Inv (activity_from conversation url) a i =
        or_same-Inv a _ i
          λ b h. recorded-Inv a b conversation url (is_allowed_service_url is_valid s url) refl h i
    step-Inv (started now) a i =
        let b = record a { running = true } in
        if-both Inv (not (is_empty a.app_id) && not (is_empty a.app_password))
          (after _ ((get_access_token-Keeps ask reply now).run b (same-Inv a b refl refl i)))
          (same-Inv a b refl refl i)
    step-Inv (replied now channel text root) a i =
        after _ ((send_reply-Keeps ask reply now channel text root).run a i)
    step-Inv (edited now id text channel) a i =
        after _ ((update_reply-Keeps ask reply now id text channel).run a i)
    step-Inv (typed now channel) a i = after _ ((send_typing-Keeps ask reply now channel).run a i)
    step-Inv (shared now channel text files root) a i =
        after _ ((send_reply-Keeps ask reply now channel _ root).run a i)
    step-Inv stopped a i = same-Inv a (stop a) refl refl i

    steps-Inv : (xs : List Action) (a : Adapter) → Inv a → Inv (steps is_valid s ask reply xs a)
    unfolding steps
    steps-Inv [] a i = i
    steps-Inv (x ∷ xs) a i = steps-Inv xs (step is_valid s ask reply x a) (step-Inv x a i)

-- Whatever addresses the activities of a new adapter come with, and whatever the servers answer: every request that
-- carries the access token goes to a conversation below the default address or below one that the
-- settings allow, only such addresses are kept, and never more than 10000.
pub addresses_trusted :
    (is_valid : Text → Bool) (s : Settings) (ask : List Request → Token)
    (reply : List Request → Option Text) (id password : Text) (xs : List Action)
    → Inv is_valid s (steps is_valid s ask reply xs (new id password))
addresses_trusted is_valid s ask reply id password xs =
    steps-Inv is_valid s ask reply xs (new id password) (new-Inv is_valid s id password)
