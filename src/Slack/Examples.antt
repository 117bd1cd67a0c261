-- ===== src/Slack/Examples.antt =====
-- Sessions of the Slack adapter at concrete frames.
use claw_mux.Base.{◌≡◌, refl, true, none, some, List, [], ◌∷◌, Text, codes, list_eq}
use claw_mux.Web.Json.{Json, str, bool, obj, field, end, get_or, find_field, truthy, text_of}
use claw_mux.Slack.Socket.{new, start, parse_auth, Frame, Session, refused, closed, broken}
use claw_mux.Slack.Sessions.{Sound, turns, sessions-Sound}

abbrev auth : Json
auth = obj (field (codes "ok") (bool true) (field (codes "user_id") (str (codes "UB")) end))

abbrev envelope : Text → Text → Text → Json
envelope id user text = obj (
    field (codes "envelope_id") (str id) (
      field (codes "type") (str (codes "events_api")) (
        field (codes "payload")
          (obj (
            field (codes "event")
              (obj (
                field (codes "type") (str (codes "message"))
                  (field (codes "user") (str user) (field (codes "text") (str text) end))))
              end))
          end)))

abbrev frame : Json → Frame
frame j = record { message = some j; is_sendable = true }

abbrev sessions : List Session
sessions =
    refused
    ∷ broken (
        frame (envelope (codes "e1") (codes "U1") (codes "Hi"))
        ∷ record { message = none; is_sendable = true }
        ∷ [])
    ∷ closed (frame (envelope (codes "e2") (codes "UB") (codes "Hello")) ∷ [])
    ∷ []

auth_id : parse_auth auth ≡ some (codes "UB")
unfolding get_or find_field list_eq truthy text_of
auth_id = refl

sessions-Sound_example :
    Sound (codes "UB") (start (some auth) new).1 sessions (turns sessions (start (some auth) new).1)
sessions-Sound_example = sessions-Sound (codes "UB") auth sessions auth_id
