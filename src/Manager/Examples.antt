-- ===== src/Manager/Examples.antt =====
-- The theorems of the connection manager at concrete inputs.
use claw_mux.Base.{
  ℕ, ◌≡◌, ◌≤◌, true, false, some, none, List, [], ◌∷◌, ◌++◌, Text, codes, text_key, nat_key, length,
  is_empty,
}
use claw_mux.Instance.{InstanceInfo}
use claw_mux.Manager.{Settings, Manager, new, send_message}
use claw_mux.Manager.Invariant.{Inv, new-Inv}
use claw_mux.Manager.Runs.{Action, steps, manager_steps-Inv}
use claw_mux.Manager.Sends.{under, send_message_same_key}
use claw_mux.Manager.Locks
use claw_mux.Manager.Locks.{Move, arrives, enters}

abbrev limits : Settings
limits = record { max_retries = 5; base_delay = 1; idle_timeout = 3600 }

abbrev alice : Text
alice = codes "mattermost:alice"

abbrev home : InstanceInfo
home = record {
  instance_url = codes "ws://one";
  credentials = record {
    device_id = codes "d";
    public_key_b64 = codes "p";
    private_key_b64 = codes "q";
    device_token = codes "t";
    gateway_token = codes "g";
  };
}

-- The gateway answers the second attempt; the first send fails.
abbrev idle : Manager
idle = new (false ∷ true ∷ true ∷ []) (none ∷ some (codes "hi", []) ∷ [])

manager_steps-Inv_example : Inv (steps limits idle (Action.send 10 (codes "k1") alice home ∷ []))
manager_steps-Inv_example =
    manager_steps-Inv limits idle (Action.send 10 (codes "k1") alice home ∷ [])
      (new-Inv (false ∷ true ∷ true ∷ []) (none ∷ some (codes "hi", []) ∷ []))

send_message_same_key_example :
    (by : List ℕ) × ((send_message limits 10 (codes "k1") alice home idle).0.sent
      ≡ [] ++ under (codes "k1") by)
    × (length by ≤ 2)
    × (is_empty by ≡ true → (send_message limits 10 (codes "k1") alice home idle).1 ≡ none)
send_message_same_key_example = send_message_same_key limits 10 (codes "k1") alice home idle

abbrev running_ : Manager
running_ = record idle {
  clients = (alice, 0) ∷ [];
  open_ = (0, alice) ∷ [];
  next_id = 1;
  last_active = (alice, 10) ∷ [];
}

abbrev guardian : ℕ
guardian = 1

abbrev message : ℕ
message = 2

-- The connection is closed while a guardian waits to reconnect; then a message arrives.
abbrev closing : List Move
closing = arrives 0 true ∷ enters 0 ∷ arrives guardian false ∷ []
