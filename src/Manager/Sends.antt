-- ===== src/Manager/Sends.antt =====
-- One logical send: its attempts, its idempotency key, and the reuse of a connection.
use claw_mux.Base.{
  ℕ, ◌≡◌, refl, true, Option, none, some, List, [], ◌∷◌, ◌++◌, arith, append_assoc, append-nil, sym,
  ap, ◌∙◌, text_key, nat_key, Text, is_some, length, is_empty, ◌≤◌,
}
use claw_mux.Base.Dict.{get, put, pop, get-put_self}
use claw_mux.Instance.{InstanceInfo}
use claw_mux.Manager.{
  Settings, Reply, Manager, connect_new, get_or_create, start_guardian, client_send, send_on,
  or_resend, send_first, send_message, close_opt,
}

sent-get_or_create :
    (s : Settings) (user : Text) (info : InstanceInfo) (m : Manager)
    → (get_or_create s user info m).0.sent ≡ m.sent
unfolding get_or_create connect_new start_guardian
sent-get_or_create s user info m = ground arith

abbrev pub under : Text → List ℕ → List (ℕ × Text)
under key [] = []
under key (c ∷ cs) = (c, key) ∷ under key cs

-- What was sent since `before`: at most `n` sends, all under `key`, and at least one if there is a
-- reply.
record Sent (key : Text) (n : ℕ) (before : List (ℕ × Text)) (r : Manager × Option Reply)
    : Type 0 where
  by : List ℕ
  log : r.0.sent ≡ before ++ under key by
  few : length by ≤ n
  some_if : is_empty by ≡ true → r.1 ≡ none

first_send : (key : Text) (r : Manager × Option ℕ) → Sent key 1 r.0.sent (send_on key r)
unfolding client_send
first_send key (m, none) = record {
  by = [];
  log = sym (append-nil _);
  few = omega arith;
  some_if = λ _. refl;
}
first_send key (m, some c) = record {
  by = c ∷ [];
  log = refl;
  few = omega arith;
  some_if = λ h. cc;
}

resent :
    (s : Settings) (user : Text) (info : InstanceInfo) (key : Text) (c : ℕ)
    (before : List (ℕ × Text)) (r : Manager × Option Reply)
    → r.0.sent ≡ before ++ (c, key) ∷ []
    → Sent key 2 before (or_resend s user info key c r)
resent s user info key c before (m, some x) e = record {
  by = c ∷ [];
  log = e;
  few = omega arith;
  some_if = λ h. cc;
}
resent s user info key c before (m, none) e =
    let g = get_or_create s user info (record m { open_ = pop m.open_ c }) in
    let l = first_send key g in
    record {
      by = c ∷ l.by;
      log =
          l.log
          ∙ ap (λ (x : List (ℕ × Text)). x ++ under key l.by)
              (sent-get_or_create s user info (record m { open_ = pop m.open_ c }) ∙ e)
          ∙ append_assoc before ((c, key) ∷ []) (under key l.by);
      few = omega (arith, l.few);
      some_if = λ h. cc;
    }

-- One logical send reaches OpenClaw at most twice, each time under the same idempotency key, and
-- it has a reply only if it was sent; nothing else is sent on its behalf.
pub send_message_same_key :
    (s : Settings) (now : ℕ) (key user : Text) (info : InstanceInfo) (m : Manager)
    → (by : List ℕ) × ((send_message s now key user info m).0.sent ≡ m.sent ++ under key by)
      × (length by ≤ 2)
      × (is_empty by ≡ true → (send_message s now key user info m).1 ≡ none)
unfolding send_message
send_message_same_key s now key user info m =
    let m' = record m { last_active = put m.last_active user now } in
    let g = go (get_or_create s user info m') (sent-get_or_create s user info m') in
    (g.by, g.log, g.few, g.some_if)
  where
    go :
        (r : Manager × Option ℕ)
        → r.0.sent ≡ m.sent
        → Sent key 2 m.sent (send_first s user info key r)
    go (n, none) e = record {
      by = [];
      log = e ∙ sym (append-nil _);
      few = omega arith;
      some_if = λ _. refl;
    }
    go (n, some c) e =
        resent s user info key c m.sent (client_send key c n)
          (unfold client_send in ap (λ (x : List (ℕ × Text)). x ++ (c, key) ∷ []) e)

-- A client that `get_or_create` returns is connected and registered for the user.
pub get_or_create_connected :
    (s : Settings) (user : Text) (info : InstanceInfo) (m : Manager) (c : ℕ)
    → (get_or_create s user info m).1 ≡ some c
    → (get (get_or_create s user info m).0.clients user ≡ some c)
      × (is_some (get (get_or_create s user info m).0.open_ c) ≡ true)
unfolding get_or_create connect_new start_guardian
get_or_create_connected s user info m c h = ground (
  arith,
  get-put_self m.clients user m.next_id,
  get-put_self (close_opt (get m.clients user) m.open_) m.next_id user,
)

-- A connected client is returned as it is, whatever instance is asked for.
pub get_or_create_reuses :
    (s : Settings) (user : Text) (info : InstanceInfo) (m : Manager) (c : ℕ)
    → get m.clients user ≡ some c
    → is_some (get m.open_ c) ≡ true
    → get_or_create s user info m ≡ (m, some c)
unfolding get_or_create
get_or_create_reuses s user info m c e o = rw (e, o)
