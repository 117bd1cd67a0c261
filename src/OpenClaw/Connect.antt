-- ===== src/OpenClaw/Connect.antt =====
-- `connect`: the sockets that it opens and the frames that it exchanges. What the gateway answers is
-- the list `net`: one entry for each open, send or receive, and none where that operation raises.
use claw_mux.Base.{
  ℕ, suc, Bool, true, false, not, Option, none, some, List, [], ◌∷◌, ◌++◌, ◌==◌, text_key, nat_eq,
  keep, Text, codes, strip, is_empty, if◌then◌else◌, ok, err,
}
use claw_mux.Base.Exec.{Exec, pure, raise, modify, catch, ◌>>=◌, ◌>>◌}
use claw_mux.Instance.{DeviceCredentials}

-- A frame of the handshake.
pub record Hello : Type 0 where
  pub event : Text
  pub nonce : Option Text  -- payload.nonce
  pub ok_ : Bool
  pub build_id : Text  -- error.details.gatewayBuildId; empty where it is missing

pub data Cause : Type 0 where
  incomplete : List Text → Cause  -- the names of the missing credentials
  unexpected : Text → Cause
  rejected : Cause
  network : Cause

-- The connect request: the nonce that it signs, and the build id that it names.
pub data Request : Type 0 where
  request : Text → Option Text → Request

pub record Conn : Type 0 where
  pub ws : Option ℕ
  pub connected : Bool
  pub listening : Bool
  pub sockets : List ℕ  -- the open ones
  pub next_socket : ℕ
  pub sent : List Request
  pub net : List (Option Hello)

abbrev pub Step : Type 0 → Type 0
Step A = Exec Conn Cause A

-- The answer to one network operation.
abbrev pub answer : List (Option Hello) → Step Hello
answer [] c = (err network, c)
answer (none ∷ net) c = (err network, record c { net = net })
answer (some h ∷ net) c = (ok h, record c { net = net })

unfoldable pub network_op : Step Hello
network_op c = answer c.net c

-- self._ws = await websockets.connect(...)
unfoldable pub open_socket : Step Unit
unfolding network_op
open_socket = do
  network_op
  modify λ c. record c {
    ws = some c.next_socket;
    sockets = c.next_socket ∷ c.sockets;
    next_socket = suc c.next_socket;
  }

abbrev pub close_id : Option ℕ → List ℕ → List ℕ
close_id none sockets = sockets
close_id (some s) sockets = keep (λ t. not (nat_eq t s)) sockets

-- await self._ws.close()
unfoldable pub close_socket : Step Unit
close_socket = modify λ c. record c { sockets = close_id c.ws c.sockets }

abbrev pub nonce_of : Option Text → Step Text
nonce_of none = raise network
nonce_of (some n) = pure n

-- Receive the challenge and take its nonce.
unfoldable pub challenge : Step Text
unfolding network_op
challenge = do
  h ← network_op
  if h.event == codes "connect.challenge" then nonce_of h.nonce else raise (unexpected h.event)

-- Send the signed request and receive the response.
unfoldable pub exchange : Text → Option Text → Step Hello
unfolding network_op
exchange nonce build = do
  network_op
  modify λ c. record c { sent = c.sent ++ request nonce build ∷ [] }
  network_op

abbrev pub blank : Text → Text → List Text
blank t name = if is_empty (strip t) then name ∷ [] else []

unfoldable pub missing : DeviceCredentials → List Text
missing k =
    blank k.device_id (codes "device_id")
    ++ blank k.public_key_b64 (codes "public_key_b64")
    ++ blank k.private_key_b64 (codes "private_key_b64")
    ++ blank k.device_token (codes "device_token")
    ++ blank k.gateway_token (codes "gateway_token")

unfoldable pub check_credentials : List Text → Step Unit
check_credentials [] = pure tt
check_credentials (m ∷ ms) = raise (incomplete (m ∷ ms))

-- One more try, where the gateway names its build.
unfoldable pub retry : Hello → Step Hello
unfolding close_socket open_socket challenge exchange
retry res =
    if is_empty res.build_id
    then pure res
    else do close_socket; open_socket; nonce ← challenge; exchange nonce (some res.build_id)

unfoldable pub accept : Hello → Step Unit
accept res =
    if res.ok_
    then modify (λ c. record c { connected = true; listening = true })
    else raise rejected

unfoldable pub handshake : DeviceCredentials → Step Unit
unfolding check_credentials open_socket challenge exchange retry accept
handshake k = do
  check_credentials (missing k)
  open_socket
  nonce ← challenge
  res ← exchange nonce none
  last ← if res.ok_ then pure res else retry res
  accept last

abbrev pub close_failed : Option ℕ → Conn → Conn
close_failed none c = c
close_failed (some s) c = record c { sockets = close_id (some s) c.sockets; ws = none }

-- `except Exception`: whatever was opened is closed.
unfoldable pub connect : DeviceCredentials → Step Unit
unfolding handshake
connect k =
    catch (handshake k)
      λ e. do modify λ c. close_failed c.ws (record c { connected = false }); raise e
