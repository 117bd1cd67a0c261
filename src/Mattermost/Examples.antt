-- ===== src/Mattermost/Examples.antt =====
-- A run of the Mattermost adapter at concrete frames.
use claw_mux.Base.{◌≡◌, true, false, Option, some, List, [], ◌∷◌, All, Text, codes}
use claw_mux.Web.Json.{Json, str, obj, field, end}
use claw_mux.Mattermost.Socket.{
  new, log_in, Action, connected, frame, disconnected, typed, stopped, steps,
}
use claw_mux.Mattermost.Sequence.{Falling, IsHeard, steps-log_in-Numbered}

abbrev me : Json
me = obj (field (codes "id") (str (codes "bot")) end)

-- The post of every frame, however it is written.
abbrev parse : Text → Option Json
parse t = some (
    obj (
      field (codes "user_id") (str t) (
        field (codes "channel_id") (str (codes "c1"))
          (field (codes "message") (str (codes "Hi")) end))))

abbrev posted : Text → Json
posted t = obj (
    field (codes "event") (str (codes "posted"))
      (field (codes "data") (obj (field (codes "post") (str t) end)) end))

abbrev actions : List Action
actions =
    connected true
    ∷ frame (some (posted (codes "u1")))
    ∷ typed (codes "c1") [] false
    ∷ frame (some (posted (codes "bot")))
    ∷ disconnected
    ∷ connected true
    ∷ typed (codes "c1") [] true
    ∷ stopped
    ∷ []

steps-log_in-Numbered_example :
    let a = log_in (some me) new in
    let b = steps parse actions a in
    Falling b.ws_seq b.sent
    × (b.bot_user_id ≡ a.bot_user_id)
    × All (IsHeard a.bot_user_id) b.dispatched
steps-log_in-Numbered_example = steps-log_in-Numbered parse (some me) actions
