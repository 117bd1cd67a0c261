-- ===== src/Manager.antt =====
-- The connection manager (src/services/ws_manager.py). Client objects and guardian tasks are
-- numbers. A client is connected while it is in `open`; a guardian runs while it is in `running`.
-- How the coming `connect` calls end is the list `connects`, and the coming sends `replies`. An
-- operation here runs from its start to its end; `Locks` has the user's lock, for operations that
-- overlap.
pub mod Retry
pub mod Invariant
pub mod Runs
pub mod Sends
pub mod Idle
pub mod Locks
pub mod Exclusion
mod Examples
use claw_mux.Base.{
  ℕ, zero, suc, ◌+◌, ◌-◌, ◌*◌, ◌^◌, Bool, true, false, not, ◌&&◌, ◌||◌, Option, none, some, List,
  [], ◌∷◌, ◌++◌, ltb, if◌then◌else◌, ◌==◌, text_key, nat_key, Text, length,
}
use claw_mux.Base.Dict.{Dict, get, put, pop, has}
use claw_mux.Instance.{InstanceInfo}

pub record Settings : Type 0 where
  pub max_retries : ℕ  -- ws_reconnect_max_retries
  pub base_delay : ℕ  -- ws_reconnect_base_delay_sec
  pub idle_timeout : ℕ  -- ws_idle_timeout_sec

abbrev pub Reply : Type 0
Reply = Text × List Text

pub record Manager : Type 0 where
  pub clients : Dict Text ℕ
  pub open_ : Dict ℕ Text
  pub user_info : Dict Text InstanceInfo
  pub guardians : Dict Text ℕ
  pub running : Dict ℕ Text
  pub last_active : Dict Text ℕ
  pub shutting_down : Bool
  pub next_id : ℕ
  pub connects : List Bool
  pub replies : List (Option Reply)
  pub slept : List ℕ  -- the delays between attempts
  pub sent : List (ℕ × Text)  -- the client and the idempotency key of each send

abbrev pub new : List Bool → List (Option Reply) → Manager
new connects replies = record {
  clients = [];
  open_ = [];
  user_info = [];
  guardians = [];
  running = [];
  last_active = [];
  shutting_down = false;
  next_id = 0;
  connects = connects;
  replies = replies;
  slept = [];
  sent = [];
}

-- How a round of attempts ended: whether one succeeded, the answers left, and the delays slept.
pub record Attempts : Type 0 where
  pub up : Bool
  pub rest : List Bool
  pub delays : List ℕ

-- `if attempt < max_retries: await asyncio.sleep(delay)`
abbrev pub pause : ℕ → ℕ → Attempts → Attempts
pause zero delay r = r
pause (suc left) delay r = record r { delays = delay ∷ r.delays }

-- The loop of `_connect_with_retry`: `left` attempts remain, `done` have failed. A `connects` that
-- has run out is a gateway that does not answer.
unfoldable pub attempts : ℕ → ℕ → ℕ → List Bool → Attempts
attempts base zero done answers = record { up = false; rest = answers; delays = [] }
attempts base (suc left) done [] = pause left (base * 2 ^ done) (attempts base left (suc done) [])
attempts base (suc left) done (true ∷ answers) = record { up = true; rest = answers; delays = [] }
attempts base (suc left) done (false ∷ answers) =
    pause left (base * 2 ^ done) (attempts base left (suc done) answers)

abbrev pub cancel : Option ℕ → Dict ℕ Text → Dict ℕ Text
cancel none running = running
cancel (some t) running = pop running t

-- client.close(), where there is a client
abbrev pub close_opt : Option ℕ → Dict ℕ Text → Dict ℕ Text
close_opt none open_ = open_
close_opt (some c) open_ = pop open_ c

unfoldable pub start_guardian : Text → Manager → Manager
start_guardian user m = record m {
  guardians = put m.guardians user m.next_id;
  running = put (cancel (get m.guardians user) m.running) m.next_id user;
  next_id = suc m.next_id;
}

-- A new client, its attempts to connect, and what is stored when one succeeds.
abbrev pub connected : Attempts → Text → Manager → Manager
connected r user m = record m {
  next_id = suc m.next_id;
  connects = r.rest;
  slept = m.slept ++ r.delays;
  open_ = if r.up then put m.open_ m.next_id user else m.open_;
  clients = if r.up then put m.clients user m.next_id else m.clients;
}

unfoldable pub connect_new : Settings → Text → Manager → Manager × Option ℕ
connect_new s user m =
    let r = attempts s.base_delay s.max_retries 0 m.connects in
    (connected r user m, if r.up then some m.next_id else none)

abbrev pub is_open : Manager → Option ℕ → Bool
is_open m none = false
is_open m (some c) = has m.open_ c

abbrev pub registered : Text → InstanceInfo → Manager × Option ℕ → Manager × Option ℕ
registered user info (m, none) = (m, none)
registered user info (m, some c) =
    (start_guardian user (record m { user_info = put m.user_info user info }), some c)

-- The client, or none where `OpenClawConnectionError` is raised.
unfoldable pub get_or_create : Settings → Text → InstanceInfo → Manager → Manager × Option ℕ
unfolding connect_new start_guardian
get_or_create s user info m =
    let client = get m.clients user in
    if is_open m client
    then (m, client)
    else registered user info (connect_new s user (record m { open_ = close_opt client m.open_ }))

-- One turn of `_guardian_loop` of the task `t`, once its client's listen task has ended or there
-- is none; the task may break out of its loop.
unfoldable pub guardian_turn : Settings → Text → ℕ → Manager → Manager
unfolding connect_new
guardian_turn s user t m =
    if m.shutting_down || not (has m.clients user) || not (has m.user_info user)
    then record m { running = pop m.running t }
    else (connect_new s user (record m { open_ = close_opt (get m.clients user) m.open_ })).0

abbrev pub next_reply : List (Option Reply) → Option Reply
next_reply [] = none
next_reply (r ∷ rs) = r

abbrev pub tail : List (Option Reply) → List (Option Reply)
tail [] = []
tail (r ∷ rs) = rs

-- client.send_message(...) with its idempotency key
unfoldable pub client_send : Text → ℕ → Manager → Manager × Option Reply
client_send key c m =
    (record m { sent = m.sent ++ (c, key) ∷ []; replies = tail m.replies }, next_reply m.replies)

abbrev pub send_on : Text → Manager × Option ℕ → Manager × Option Reply
send_on key (m, none) = (m, none)
send_on key (m, some c) = client_send key c m

-- `except Exception`: close, reconnect, and send again under the same key.
abbrev pub or_resend :
    Settings → Text → InstanceInfo → Text → ℕ → Manager × Option Reply → Manager × Option Reply
or_resend s user info key c (m, some r) = (m, some r)
or_resend s user info key c (m, none) =
    send_on key (get_or_create s user info (record m { open_ = pop m.open_ c }))

abbrev pub send_first :
    Settings → Text → InstanceInfo → Text → Manager × Option ℕ → Manager × Option Reply
send_first s user info key (m, none) = (m, none)
send_first s user info key (m, some c) = or_resend s user info key c (client_send key c m)

-- `send_message`: `now` is the clock, `key` the fresh idempotency key. None is a raised exception.
unfoldable pub send_message :
    Settings → ℕ → Text → Text → InstanceInfo → Manager → Manager × Option Reply
unfolding client_send
send_message s now key user info m =
    send_first s user info key
      (get_or_create s user info (record m { last_active = put m.last_active user now }))

-- The entries of the locks are in `Locks`.
unfoldable pub close_connection : Text → Manager → Manager
close_connection user m = record m {
  guardians = pop m.guardians user;
  running = cancel (get m.guardians user) m.running;
  clients = pop m.clients user;
  user_info = pop m.user_info user;
  open_ = close_opt (get m.clients user) m.open_;
}

-- The users that one round of `_cleanup_loop` closes.
unfoldable pub idle_users : ℕ → ℕ → Dict Text ℕ → Manager → List Text
idle_users timeout now [] m = []
idle_users timeout now ((user, last) ∷ d) m =
    let rest = idle_users timeout now d m in
    if ltb timeout (now - last) && has m.clients user then user ∷ rest else rest

unfoldable pub close_users : List Text → Manager → Manager
unfolding close_connection
close_users [] m = m
close_users (user ∷ users) m =
    close_users users (close_connection user (record m { last_active = pop m.last_active user }))

unfoldable pub cleanup : Settings → ℕ → Manager → Manager
unfolding idle_users close_users
cleanup s now m =
    if m.shutting_down then m else close_users (idle_users s.idle_timeout now m.last_active m) m

-- Cancel every guardian.
unfoldable pub cancel_all : Dict Text ℕ → Dict ℕ Text → Dict ℕ Text
cancel_all [] running = running
cancel_all ((user, t) ∷ guardians) running = cancel_all guardians (pop running t)

-- Close every client.
unfoldable pub close_clients : Dict Text ℕ → Dict ℕ Text → Dict ℕ Text
close_clients [] open_ = open_
close_clients ((user, c) ∷ clients) open_ = close_clients clients (pop open_ c)

unfoldable pub close_all : Manager → Manager
unfolding cancel_all close_clients
close_all m = record m {
  shutting_down = true;
  running = cancel_all m.guardians m.running;
  guardians = [];
  open_ = close_clients m.clients m.open_;
  clients = [];
}
