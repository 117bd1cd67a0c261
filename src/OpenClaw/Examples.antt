-- ===== src/OpenClaw/Examples.antt =====
-- The theorems of the client at concrete inputs.
use claw_mux.Base.{
  ◌++◌, ◌≡◌, refl, ◌⊎◌, true, false, none, some, [], ◌∷◌, Text, codes, arith, text_key, nat_key,
}
use claw_mux.Base.Dict.{get}
use claw_mux.Base.Hoare.{Triple}
use claw_mux.Instance.{DeviceCredentials}
use claw_mux.Aggregator.{ClawMessage, final}
use claw_mux.OpenClaw.State.{Client, waiting, result, initial, is_connected, raised, proactive}
use claw_mux.OpenClaw.Frame.{Frame}
use claw_mux.OpenClaw.Dispatch.{route}
use claw_mux.OpenClaw.Actions.{frame, send, wake, time_out, debounce, disconnect, steps}
use claw_mux.OpenClaw.Pending.{Inv, initial-Inv}
use claw_mux.OpenClaw.Invariant.{steps-Inv}
use claw_mux.OpenClaw.Settled.{steps-settled}
use claw_mux.OpenClaw.Requests.{in_flight, begun, ended, sends_conserved, disconnect-raises}
use claw_mux.OpenClaw.Answers.{IsAwaited, route_delivers}
use claw_mux.OpenClaw.Connect.{connect}
use claw_mux.OpenClaw.Handshake.{IsClosed, IsUp, connect_no_leak}

abbrev up : Client
up = record (initial true) { ws = some true; connected = true; listening = some true }

abbrev first : Text
first = codes "m1"

abbrev second : Text
second = codes "m10"

abbrev hello : Frame
hello = record {
  event = codes "chat";
  type = codes "event";
  ok = false;
  error = [];
  session_key = codes "agent:main:main";
  run_id = codes "r1";
  state = codes "final";
  stream = [];
  data_text = [];
  data_phase = [];
  data_error = none;
  seq = 4;
  content = none;
  text = codes "Hello, world";
  media_urls = none;
  media_url = none;
  action = [];
  summary = [];
}

-- A request that has been sent, and the same with its answer.
abbrev asking : Client
asking = record up {
  send_lock = some (0, first);
  active_msg_id = some first;
  pending_future = some 0;
  pending_future_msg_id = some first;
  futures = (0, waiting) ∷ [];
  next_future = 1;
}

abbrev told : ClawMessage
told = record {
  msg_id = first;
  seq = 4;
  text = codes "Hello, world";
  state = final;
  ts = 7;
  media_paths = [];
}

steps-Inv_example :
    Inv (steps 2 (initial true) (send first false ∷ frame 7 hello ∷ debounce 0 ∷ wake ∷ [])).0
steps-Inv_example =
    steps-Inv 2 (initial true) (send first false ∷ frame 7 hello ∷ debounce 0 ∷ wake ∷ [])
      (initial-Inv true)

sends_conserved_example :
    let r = steps 2 up (send first false ∷ time_out ∷ send second false ∷ []) in
    in_flight up.send_lock ++ begun r.1 ≡ ended r.1 ++ in_flight r.0.send_lock
sends_conserved_example =
    sends_conserved 2 up (send first false ∷ time_out ∷ send second false ∷ [])

disconnect-raises_example :
    (is_connected (steps 2 asking (disconnect ∷ wake ∷ [])).0 ≡ false)
    × ((steps 2 asking (disconnect ∷ wake ∷ [])).0.send_lock ≡ none)
    × ((steps 2 asking (disconnect ∷ wake ∷ [])).1 ≡ raised first ∷ [])
unfolding get
disconnect-raises_example = disconnect-raises 2 asking 0 first refl refl refl

route_delivers_example :
    ((a : IsAwaited asking told) × (get (route asking told).0.futures a.future
        ≡ some (result told.text told.media_paths))
      × ((route asking told).1 ≡ []))
    ⊎ ((¬ IsAwaited asking told)
        × ((route asking told).0.futures ≡ asking.futures)
        × ((route asking told).1 ≡ proactive told.text ∷ []))
unfolding initial
route_delivers_example = route_delivers asking told refl refl

abbrev keys : DeviceCredentials
keys = record {
  device_id = codes "d";
  public_key_b64 = codes "p";
  private_key_b64 = codes "q";
  device_token = codes "t";
  gateway_token = codes "g";
}

connect_no_leak_example : Triple IsClosed (connect keys) (λ _. IsUp) (λ _. IsClosed)
connect_no_leak_example = connect_no_leak keys

-- ── A request answered ──

-- ── A request settled ──

-- The client with the answer of its request set.
abbrev answered : Client
answered = record asking { futures = (0, result (codes "Hello") []) ∷ [] }

answered-Inv : Inv answered
unfolding initial get
answered-Inv = record {
  fresh = λ f v h. ground arith;
  active = refl;
  unlocked = λ h. cc;
  unnamed = λ h. cc;
  paired = λ g f id p l. (cc, cc);
  held = λ f id l. ground arith;
}

steps-settled_example :
    get (steps 2 answered (frame 9 hello ∷ disconnect ∷ [])).0.futures 0
    ≡ some (result (codes "Hello") [])
unfolding get
steps-settled_example =
    steps-settled 2 answered (frame 9 hello ∷ disconnect ∷ []) 0 (result (codes "Hello") [])
      answered-Inv refl refl
