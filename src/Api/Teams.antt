-- ===== src/Api/Teams.antt =====
-- `teams_webhook_messages`: an activity of the Bot Framework.
use claw_mux.Base.{
  ℕ, suc, Bool, true, false, ◌||◌, Option, none, some, List, [], ◌∷◌, is_empty, if◌then◌else◌, ◌==◌,
  text_key, Text, codes, strip, Result, ok, err,
}
use claw_mux.Web.Json.{
  Json, num, str, arr, obj, nil, end, truthy, get, get_or, str_of, elements, ◌>>=◌,
}
use claw_mux.Teams.Auth.{Settings, AuthError, verify_inbound_token, is_allowed_service_url}
use claw_mux.Teams.Adapter.{Adapter, register_service_url}
use claw_mux.Api.Guard.{Reply, refused, crashed, done}

pub record Event : Type 0 where
  pub user_id : Text
  pub channel_id : Text
  pub text : Text
  pub post_id : Text
  pub file_ids : List Text
  pub root_id : Text

-- The texts that are read from an activity.
pub record Activity : Type 0 where
  pub user : Text
  pub conversation : Text
  pub text : Text
  pub id : Text
  pub reply_to : Text
  pub service_url : Text

-- What the endpoint does: its answer (a Response by its status), the registered adapter and the events.
abbrev pub Outcome : Type 0
Outcome = Reply ℕ × Option Adapter × List Event

module _ (render : Json → Text) (is_valid : Text → Bool)
    (accepts : Text → Text → Text → List Text → Bool) (s : Settings) where
  -- str(activity.get(key) or "")
  abbrev pub text_at : Json → Text → Option Text
  text_at j k = get j k >>= λ v. some (if truthy v then str_of render v else [])

  unfoldable pub read_activity : Json → Option Activity
  unfolding truthy str_of
  read_activity j = do
    from_user ← get_or j (codes "from") (obj end)
    user ← text_at from_user (codes "id")
    conversation ← get_or j (codes "conversation") (obj end)
    id ← text_at conversation (codes "id")
    text ← text_at j (codes "text")
    message ← text_at j (codes "id")
    reply ← text_at j (codes "replyToId")
    url ← text_at j (codes "serviceUrl")
    some (record {
      user = user;
      conversation = id;
      text = strip text;
      id = message;
      reply_to = reply;
      service_url = url;
    })

  -- [str(a.get("name", i)) for i, a in enumerate(attachments)]
  unfoldable pub names_from : ℕ → List Json → Option (List Text)
  unfolding str_of
  names_from i [] = some []
  names_from i (a ∷ rows) =
      let rest = names_from (suc i) rows in
      get_or a (codes "name") (num i) >>= λ n. rest >>= λ ns. some (str_of render n ∷ ns)

  unfoldable pub file_names : Json → Option (List Text)
  unfolding names_from elements
  file_names j = get_or j (codes "attachments") (arr nil) >>= λ rows. elements rows >>= names_from 0

  abbrev pub with_files : Option Adapter → Activity → Option (List Text) → Outcome
  with_files a v none = (crashed, a, [])
  with_files a v (some files) = (
    done 200,
    a,
    (record {
      user_id = v.user;
      channel_id = v.conversation;
      text = v.text;
      post_id = v.id;
      file_ids = files;
      root_id = v.reply_to;
    })
        ∷ [],
  )

  -- The adapter, where one is registered for Teams.
  abbrev pub with_address : Json → Activity → Option Adapter → Option Adapter → Outcome
  with_address j v none none = with_files none v (file_names j)
  with_address j v none (some b) = with_files none v (file_names j)
  with_address j v (some a) none = (crashed, some a, [])
  with_address j v (some a) (some b) = with_files (some b) v (file_names j)

  abbrev pub registered : Activity → Option Adapter → Option Adapter
  registered v none = none
  registered v (some a) = register_service_url is_valid s a v.conversation v.service_url

  abbrev pub by_address : Json → Activity → Option Adapter → Option Bool → Outcome
  by_address j v a none = (crashed, a, [])
  by_address j v a (some false) = (refused 403, a, [])
  by_address j v a (some true) = with_address j v a (registered v a)

  abbrev pub with_activity : Json → Option Adapter → Option Activity → Outcome
  with_activity j a none = (crashed, a, [])
  with_activity j a (some v) =
      if is_empty v.user || is_empty v.conversation || is_empty v.text
      then (done 200, a, [])
      else by_address j v a (is_allowed_service_url is_valid s v.service_url)

  abbrev pub is_message : Json → Bool
  is_message (str t) = t == codes "message"
  is_message j = false

  abbrev pub by_type : Json → Option Adapter → Option Json → Outcome
  by_type j a none = (crashed, a, [])
  by_type j a (some kind) =
      if is_message kind then with_activity j a (read_activity j) else (done 200, a, [])

  abbrev pub with_body : Option Json → Option Adapter → Outcome
  with_body none a = (done 400, a, [])
  with_body (some j) a = by_type j a (get j (codes "type"))

  abbrev pub verified : Result AuthError (Unit {0}) → Option Json → Option Adapter → Outcome
  verified (err e) body a = (refused 401, a, [])
  verified (ok x) body a = with_body body a

  -- `body` is none where it is no JSON.
  unfoldable pub teams_webhook_messages : Option Text → Option Json → Option Adapter → Outcome
  unfolding read_activity file_names
  teams_webhook_messages authorization body a =
      verified (verify_inbound_token accepts s authorization) body a
