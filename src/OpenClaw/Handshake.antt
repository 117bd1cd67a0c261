-- ===== src/OpenClaw/Handshake.antt =====
-- What `connect` leaves behind.
use claw_mux.Base.{
  ℕ, suc, ◌≡◌, refl, true, false, Option, none, some, List, [], ◌∷◌, ◌++◌, arith, Text, is_empty,
  ◌==◌, text_key, codes,
}
use claw_mux.Base.Exec.{modify, ◌>>=◌}
use claw_mux.Base.Hoare.{
  Triple, Post, Triple-pure, Triple-raise, Triple-if, Triple-modify, Triple-bind, Triple-catch,
}
use claw_mux.Instance.{DeviceCredentials}
use claw_mux.OpenClaw.Connect.{
  Hello, Cause, Conn, request, network_op, open_socket, close_socket, close_id, challenge, exchange,
  retry, accept, handshake, connect, missing, check_credentials, nonce_of, answer, unexpected,
  network, rejected, close_failed, incomplete,
}

-- No socket is open, and none is the client's.
pub record IsClosed (c : Conn) : Type 0 where
  pub no_ws : c.ws ≡ none
  pub no_sockets : c.sockets ≡ []
  pub down : c.connected ≡ false

-- The client's socket is the one that is open, and the listener runs.
pub record IsUp (c : Conn) : Type 0 where
  pub socket : ℕ
  pub ws : c.ws ≡ some socket
  pub only : c.sockets ≡ socket ∷ []
  pub up : c.connected ≡ true
  pub listens : c.listening ≡ true

-- Closing the client's socket leaves none open.
abbrev Owned : Conn → Type 0
Owned c = close_id c.ws c.sockets ≡ []

record Live (c : Conn) : Type 0 where
  socket : ℕ
  ws : c.ws ≡ some socket
  only : c.sockets ≡ socket ∷ []

Live-Owned : (c : Conn) → Live c → Owned c
Live-Owned c l = ground (arith, l.ws, l.only)

empty-Owned : (c : Conn) → c.sockets ≡ [] → Owned c
empty-Owned c h = rw h (go c.ws)
  where
    go : (w : Option ℕ) → close_id w [] ≡ []
    go none = refl
    go (some s) = refl

abbrev Fails : Cause → Conn → Type 0
Fails e c = Owned c

net-Live : (c : Conn) (net : List (Option Hello)) → Live c → Live (record c { net = net })
net-Live c net l = record { socket = l.socket; ws = l.ws; only = l.only }

network_op-Live : Triple Live network_op (λ _. Live) Fails
unfolding network_op
network_op-Live = record { run = λ c l. go c c.net l }
  where
    go : (c : Conn) (net : List (Option Hello)) → Live c → Post (λ _. Live) Fails (answer net c)
    go c [] l = Live-Owned c l
    go c (none ∷ net) l = Live-Owned c l
    go c (some h ∷ net) l = net-Live c net l

open-Live : Triple (λ c. c.sockets ≡ []) open_socket (λ _. Live) Fails
unfolding open_socket network_op
open-Live = record { run = λ c l. go c c.net l }
  where
    go :
        (c : Conn) (net : List (Option Hello))
        → c.sockets ≡ []
        → Post
            (λ (_ : Unit {0}). Live)
            Fails
            ((answer net >>= λ _. modify λ c. record c {
              ws = some c.next_socket;
              sockets = c.next_socket ∷ c.sockets;
              next_socket = suc c.next_socket;
            })
              c)
    go c [] l = empty-Owned c l
    go c (none ∷ net) l = empty-Owned c l
    go c (some h ∷ net) l = record { socket = c.next_socket; ws = refl; only = rw l }

challenge-Live : Triple Live challenge (λ _. Live) Fails
unfolding challenge
challenge-Live = Triple-bind _ _ network_op-Live λ h.
    Triple-if (h.event == codes "connect.challenge") (λ _. nonce-Live h.nonce)
      (λ _. Triple-raise (unexpected h.event) Live-Owned)
  where
    nonce-Live : (n : Option Text) → Triple Live (nonce_of n) (λ _. Live) Fails
    nonce-Live none = Triple-raise network Live-Owned
    nonce-Live (some n) = Triple-pure n (λ s l. l)

exchange-Live :
    (nonce : Text) (build : Option Text) → Triple Live (exchange nonce build) (λ _. Live) Fails
unfolding exchange
exchange-Live nonce build = Triple-bind _ _ network_op-Live λ h.
    Triple-bind _ _
      (Triple-modify (λ c. record c { sent = c.sent ++ request nonce build ∷ [] })
        (λ c l. record { socket = l.socket; ws = l.ws; only = l.only }))
      (λ _. network_op-Live)

close-Live : Triple Live close_socket (λ _ c. c.sockets ≡ []) Fails
unfolding close_socket
close-Live = Triple-modify _ Live-Owned

retry-Live : (res : Hello) → Triple Live (retry res) (λ _. Live) Fails
unfolding retry
retry-Live res =
    Triple-if (is_empty res.build_id) (λ _. Triple-pure res (λ s l. l))
      λ _. Triple-bind _ _ close-Live λ _.
        Triple-bind _ _ open-Live
          λ _. Triple-bind _ _ challenge-Live λ n. exchange-Live n (some res.build_id)

accept-Live : (res : Hello) → Triple Live (accept res) (λ _. IsUp) Fails
unfolding accept
accept-Live res =
    Triple-if res.ok_
      (λ _.
        Triple-modify _ (λ c l. record {
          socket = l.socket;
          ws = l.ws;
          only = l.only;
          up = refl;
          listens = refl;
        }))
      (λ _. Triple-raise rejected Live-Owned)

handshake-Live : (k : DeviceCredentials) → Triple IsClosed (handshake k) (λ _. IsUp) Fails
unfolding handshake check_credentials
handshake-Live k = Triple-bind _ _ (checked (missing k)) λ _. Triple-bind _ _ open-Live λ _.
    Triple-bind _ _ challenge-Live λ n. Triple-bind _ _ (exchange-Live n none) λ res.
      Triple-bind _ _ (Triple-if res.ok_ (λ _. Triple-pure res (λ s l. l)) (λ _. retry-Live res))
        accept-Live
  where
    checked :
        (ms : List Text) → Triple IsClosed (check_credentials ms) (λ _ c. c.sockets ≡ []) Fails
    checked [] = Triple-pure tt (λ c h. h.no_sockets)
    checked (m ∷ ms) = Triple-raise (incomplete (m ∷ ms)) (λ c h. empty-Owned c h.no_sockets)

-- From a client without sockets, `connect` either returns with one open socket, the client's own,
-- connected and listening, or raises with every socket that it opened closed again; so neither a
-- refusal nor a failed retry leaks a socket.
pub connect_no_leak :
    (k : DeviceCredentials) → Triple IsClosed (connect k) (λ _. IsUp) (λ _. IsClosed)
unfolding connect
connect_no_leak k =
    Triple-catch _ _ (handshake-Live k)
      λ e. Triple-bind _ _ (Triple-modify _ clean) (λ _. Triple-raise e (λ c h. h))
  where
    clean : (c : Conn) → Owned c → IsClosed (close_failed c.ws (record c { connected = false }))
    clean c o = go c.ws refl o
      where
        go :
            (w : Option ℕ)
            → c.ws ≡ w
            → close_id w c.sockets ≡ []
            → IsClosed (close_failed w (record c { connected = false }))
        go none e h = record { no_ws = e; no_sockets = h; down = refl }
        go (some s) e h = record { no_ws = refl; no_sockets = h; down = refl }
