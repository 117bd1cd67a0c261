-- ===== src/Mattermost/Send.antt =====
-- The HTTP API: posts, edits and direct channels.
use claw_mux.Base.{
  Option, none, some, List, [], is_empty, if◌then◌else◌, Text, codes, Result, ok, err,
}
use claw_mux.Web.Json.{Json, str, get_or}

pub data Request : Type 0 where
  create_post :
      (channel message : Text) → (files : Option (List Text)) → (root : Option Text) → Request
  update_post : (id message : Text) → Request
  direct_channel : (bot user : Text) → Request

-- An httpx.HTTPError, or any other exception.
pub data Failure : Type 0 where
  http other : Failure

abbrev pub root_of : Text → Option Text
root_of root = if is_empty root then none else some root

-- `reply` is how a request ends: the decoded answer, if its status is no error.
module _ (reply : Request → Result Failure Json) where
  abbrev pub id_or_raise : Option Json → Result Failure Json
  id_or_raise none = err other
  id_or_raise (some id) = ok id

  abbrev pub id_of : Result Failure Json → Result Failure Json
  id_of (err e) = err e
  id_of (ok j) = id_or_raise (get_or j (codes "id") (str []))

  -- An error is raised again.
  unfoldable pub send_reply : Text → Text → Text → Result Failure Json
  send_reply channel message root = id_of (reply (create_post channel message none (root_of root)))

  unfoldable pub send_post_with_files : Text → Text → List Text → Text → Result Failure Json
  send_post_with_files channel message files root =
      id_of (reply (create_post channel message (some files) (root_of root)))

  abbrev pub updated : Result Failure Json → Result Failure (Unit {0})
  updated (err other) = err other
  updated r = ok tt

  -- The body of the answer is not read.
  unfoldable pub update_reply : Text → Text → Result Failure (Unit {0})
  update_reply id message = if is_empty id then ok tt else updated (reply (update_post id message))

  abbrev pub or_empty : Result Failure Json → Result Failure Json
  or_empty (err http) = ok (str [])
  or_empty r = r

  abbrev pub direct : Option Text → Text → Result Failure Json
  direct none user = ok (str [])
  direct (some bot) user =
      if is_empty bot then ok (str []) else or_empty (id_of (reply (direct_channel bot user)))

  unfoldable pub get_or_create_dm_channel : Option Text → Text → Result Failure Json
  get_or_create_dm_channel bot user = direct bot user
