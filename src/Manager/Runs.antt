-- ===== src/Manager/Runs.antt =====
-- The invariant over whole runs of the manager, and its shutdown.
use claw_mux.Base.{
  ℕ, ◌≡◌, refl, inl, inr, Option, none, some, List, [], ◌∷◌, ◌++◌, arith, Bool-cases, Option-cases,
  nat_eq_iff, list_eq, text_key, nat_key, Text, if-both,
}
use claw_mux.Base.Dict.{Dict, get, put, pop, get-pop}
use claw_mux.Instance.{InstanceInfo}
use claw_mux.Manager.{
  Settings, Reply, Manager, guardian_turn, client_send, send_on, or_resend, send_first,
  send_message, close_connection, close_users, cleanup, cancel_all, close_clients, close_all,
  idle_users, tail,
}
use claw_mux.Manager.Invariant.{
  Inv, get_or_create-Inv, guardian_turn-Inv, close_connection-Inv, other-Inv, close_opt-Inv,
}

sent-Inv : (m : Manager) (key : Text) (c : ℕ) → Inv m → Inv (client_send key c m).0
unfolding client_send
sent-Inv m key c v =
    other-Inv m v m.user_info m.last_active m.shutting_down m.connects (tail m.replies) m.slept
      (m.sent ++ (c, key) ∷ [])

send_on-Inv : (key : Text) (r : Manager × Option ℕ) → Inv r.0 → Inv (send_on key r).0
send_on-Inv key (m, none) v = v
send_on-Inv key (m, some c) v = sent-Inv m key c v

resend-Inv :
    (s : Settings) (user : Text) (info : InstanceInfo) (key : Text) (c : ℕ)
    (r : Manager × Option Reply)
    → Inv r.0
    → Inv (or_resend s user info key c r).0
resend-Inv s user info key c (m, some x) v = v
resend-Inv s user info key c (m, none) v =
    send_on-Inv key _ (get_or_create-Inv s _ (close_opt-Inv m v (some c)) user info)

first-Inv :
    (s : Settings) (user : Text) (info : InstanceInfo) (key : Text) (r : Manager × Option ℕ)
    → Inv r.0
    → Inv (send_first s user info key r).0
first-Inv s user info key (m, none) v = v
first-Inv s user info key (m, some c) v =
    resend-Inv s user info key c (client_send key c m) (sent-Inv m key c v)

send_message-Inv :
    (s : Settings) (now : ℕ) (key user : Text) (info : InstanceInfo) (m : Manager)
    → Inv m
    → Inv (send_message s now key user info m).0
unfolding send_message
send_message-Inv s now key user info m v = first-Inv s user info key _ (
    get_or_create-Inv s _
      (other-Inv m v m.user_info (put m.last_active user now) m.shutting_down m.connects m.replies
        m.slept m.sent)
      user info)

close_users-Inv : (users : List Text) (m : Manager) → Inv m → Inv (close_users users m)
unfolding close_users
close_users-Inv [] m v = v
close_users-Inv (user ∷ users) m v = close_users-Inv users _ (
    close_connection-Inv (record { max_retries = 0; base_delay = 0; idle_timeout = 0 }) _
      (other-Inv m v m.user_info (pop m.last_active user) m.shutting_down m.connects m.replies
        m.slept m.sent)
      user)

-- Emptying a table of tasks or clients: what is gone stays gone, and what it lists goes.
cancel_all-gone :
    (d : Dict Text ℕ) (r : Dict ℕ Text) (t : ℕ) → get r t ≡ none → get (cancel_all d r) t ≡ none
unfolding cancel_all
cancel_all-gone [] r t h = h
cancel_all-gone ((k, u) ∷ d) r t h = cancel_all-gone d (pop r u) t (ground (arith, get-pop r u t))

cancel_all-listed :
    (d : Dict Text ℕ) (r : Dict ℕ Text) (k : Text) (t : ℕ)
    → get d k ≡ some t
    → get (cancel_all d r) t ≡ none
unfolding cancel_all get
cancel_all-listed [] r k t h = cc
cancel_all-listed ((j, u) ∷ d) r k t h = elim (Bool-cases (list_eq j k)) [
  | inl e ↦ cancel_all-gone d (pop r u) t (ground (arith, get-pop r u t, nat_eq_iff u t))
  | inr e ↦ cancel_all-listed d (pop r u) k t (ground arith)
]

close_clients-same : (d : Dict Text ℕ) (r : Dict ℕ Text) → close_clients d r ≡ cancel_all d r
unfolding close_clients cancel_all
close_clients-same [] r = refl
close_clients-same ((k, u) ∷ d) r = close_clients-same d (pop r u)

-- The shutdown leaves no guardian running and no client connected.
pub record IsQuiet (m : Manager) : Type 0 where
  pub no_clients : m.clients ≡ []
  pub no_open : (c : ℕ) → get m.open_ c ≡ none
  pub no_running : (t : ℕ) → get m.running t ≡ none

close_all-IsQuiet : (m : Manager) → Inv m → IsQuiet (close_all m)
unfolding close_all
close_all-IsQuiet m v = record {
  no_clients = refl;
  no_open = λ c. rw (close_clients-same m.clients m.open_) (elim (Option-cases (get m.open_ c)) [
    | inl e ↦ cancel_all-gone m.clients m.open_ c e
    | inr (u, e) ↦ cancel_all-listed m.clients m.open_ u c (v.client_owned c u e)
  ]);
  no_running = λ t. elim (Option-cases (get m.running t)) [
    | inl e ↦ cancel_all-gone m.guardians m.running t e
    | inr (u, e) ↦ cancel_all-listed m.guardians m.running u t (v.guardian_owned t u e)
  ];
}

close_all-Inv : (m : Manager) → Inv m → Inv (close_all m)
close_all-Inv m v =
    let q = close_all-IsQuiet m v in
    record {
      client_owned = λ c u h. cc (q.no_open c);
      client_fresh = λ c u h. cc (q.no_open c);
      guardian_owned = λ t u h. cc (q.no_running t);
      guardian_fresh = λ t u h. cc (q.no_running t);
    }

-- What happens to a manager where the operations of one user do not overlap: each ends before the
-- next begins.
pub data Action : Type 0 where
  send : ℕ → Text → Text → InstanceInfo → Action
  turn : Text → ℕ → Action  -- a guardian's turn
  lost : ℕ → Action  -- a client's connection drops
  closing : Text → Action
  tidy : ℕ → Action  -- a round of the cleanup loop
  shutdown : Action

unfoldable pub step : Settings → Manager → Action → Manager
unfolding cleanup
step s m (send now key user info) = (send_message s now key user info m).0
step s m (turn user t) = guardian_turn s user t m
step s m (lost c) = record m { open_ = pop m.open_ c }
step s m (closing user) = close_connection user m
step s m (tidy now) = cleanup s now m
step s m shutdown = close_all m

unfoldable pub steps : Settings → Manager → List Action → Manager
unfolding step
steps s m [] = m
steps s m (a ∷ as_) = steps s (step s m a) as_

step-Inv : (s : Settings) (m : Manager) (a : Action) → Inv m → Inv (step s m a)
unfolding step
step-Inv s m (send now key user info) v = send_message-Inv s now key user info m v
step-Inv s m (turn user t) v = guardian_turn-Inv s m v user t
step-Inv s m (lost c) v = close_opt-Inv m v (some c)
step-Inv s m (closing user) v = close_connection-Inv s m v user
step-Inv s m (tidy now) v =
    if-both Inv m.shutting_down v
      (close_users-Inv (idle_users s.idle_timeout now m.last_active m) m v)
step-Inv s m shutdown v = close_all-Inv m v

-- Where each operation of a user ends before the user's next one begins: after any sends, drops,
-- guardians' turns, closings and cleanups, a client that is connected is the one registered for its
-- user, and a guardian that runs is the one registered for its user. No user has two connections or
-- two guardians, and none is leaked.
pub manager_steps-Inv :
    (s : Settings) (m : Manager) (as_ : List Action) → Inv m → Inv (steps s m as_)
unfolding steps
manager_steps-Inv s m [] v = v
manager_steps-Inv s m (a ∷ as_) v = manager_steps-Inv s (step s m a) as_ (step-Inv s m a v)

-- After any such run, a shutdown leaves no client registered, no connection open and no guardian
-- running.
pub shutdown-IsQuiet :
    (s : Settings) (m : Manager) (as_ : List Action) → Inv m → IsQuiet (close_all (steps s m as_))
shutdown-IsQuiet s m as_ v = close_all-IsQuiet _ (manager_steps-Inv s m as_ v)
