-- ===== src/OpenClaw/Replies.antt =====
-- A request from its send to its return.
use claw_mux.Base.{◌≡◌, Bool, true, false, none, some, List, Text, nat_key, text_key, is_empty}
use claw_mux.Base.Dict.{get}
use claw_mux.Aggregator.Timers
use claw_mux.OpenClaw.State.{Client, is_connected, same_id}
use claw_mux.OpenClaw.Frame.{Frame}
use claw_mux.OpenClaw.Actions.{begin_send}

-- What a client needs so that a request `id` can be answered.
pub record IsReady (c : Client) (id : Text) : Type 0 where
  pub connected : is_connected c ≡ true
  pub free : c.send_lock ≡ none
  pub timers : Timers.Inv c.aggregator
  pub callback : c.aggregator.on_final ≡ true
  pub unseen : get c.aggregator.buffers id ≡ none
  pub in_time : same_id c.timed_out_msg_id (some id) ≡ false
  pub named : is_empty id ≡ false

-- The client after `send`.
abbrev pub asked : Client → Text → Bool → Client
asked c id on_stream = (begin_send c id on_stream).0
