-- ===== src/Api/Action.antt =====
-- `proxy_mm_action`: a click on a button, forwarded to the tools server.
use claw_mux.Base.{
  Bool, true, false, Option, none, some, List, [], ◌∷◌, is_empty, if◌then◌else◌, Text, codes,
}
use claw_mux.Web.Json.{Json, obj, end, get, get_or, ◌>>=◌, ◌>>◌}
use claw_mux.Api.Guard.{compare_digest, Reply, refused, crashed, done}

-- The answer of the tools server, or the update that is shown where it has none.
pub data Shown : Type 0 where
  forwarded : Json → Shown
  unavailable : Shown

abbrev pub or_query : Text → Text → Text
or_query header query = if is_empty header then query else header

-- The payload's context is read for the log: another shape raises.
abbrev pub logged_context : Json → Option Json
logged_context payload = do
  context ← get_or payload (codes "context") (obj end)
  get context (codes "task_id")
  get context (codes "action")

-- `post` is the tools server: none where the request, its status or the decoding raises.
module _ (post : Json → Option Json) (secret : Text) where
  abbrev answered : Option Json → Shown
  answered none = unavailable
  answered (some j) = forwarded j

  abbrev forward : Json → Option Json → Reply Shown × List Json
  forward payload none = (crashed, [])
  forward payload (some logged) = (done (answered (post payload)), payload ∷ [])

  abbrev parsed : Option Json → Reply Shown × List Json
  parsed none = (refused 400, [])
  parsed (some payload) = forward payload (logged_context payload)

  abbrev compared : Option Json → Option Bool → Reply Shown × List Json
  compared body none = (crashed, [])
  compared body (some true) = parsed body
  compared body (some false) = (refused 401, [])

  -- With what was sent to the tools server; `body` is none where it is no JSON.
  unfoldable pub proxy_mm_action : (header query : Text) → Option Json → Reply Shown × List Json
  proxy_mm_action header query body =
      let provided = or_query header query in
      if is_empty secret
      then (refused 401, [])
      else if is_empty provided
      then (refused 401, [])
      else compared body (compare_digest provided secret)
