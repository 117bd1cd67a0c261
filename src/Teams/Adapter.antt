-- ===== src/Teams/Adapter.antt =====
-- `TeamsAdapter`: the access token, the addresses of the conversations, the least recently used first,
-- and what is sent.
use claw_mux.Base.{
  ℕ, ◌+◌, ◌-◌, Bool, true, false, not, ◌&&◌, Option, none, some, List, [], ◌∷◌, ◌++◌, nat_eq, ltb,
  length, drop, map, join, is_empty, if◌then◌else◌, text_key, Text, codes, strip, ok,
}
use claw_mux.Base.Dict.{Dict, get, pop}
use claw_mux.Base.Exec.{Exec, pure, raise, modify, catch, ◌>>=◌, ◌>>◌}
use claw_mux.Web.Text.{rstrip_chars}
use claw_mux.Teams.Auth.{Settings, is_allowed_service_url}

abbrev pub max_service_urls : ℕ
max_service_urls = 10000

abbrev pub default_service_url : Text
default_service_url = codes "https://smba.trafficmanager.net/teams"

-- A message or a typing activity, posted or put.
pub data Activity : Type 0 where
  message : (text : Text) → (reply_to : Option Text) → Activity
  typing : Activity

pub data Request : Type 0 where
  oauth : (client_id client_secret : Text) → Request
  post : (url token : Text) → Activity → Request
  put : (url token : Text) → Activity → Request

-- An answer to the request for a token: it raises, or there is a token, whose lifetime may be unreadable.
pub data Token : Type 0 where
  no_token : Token
  token : Text → Option ℕ → Token

pub record Adapter : Type 0 where
  pub app_id : Text
  pub app_password : Text
  pub access_token : Text
  pub token_expires_at : ℕ
  pub running : Bool
  pub service_urls : Dict Text Text
  pub http_open : Bool
  pub sent : List Request  -- the newest first

unfoldable pub new : Text → Text → Adapter
new app_id app_password = record {
  app_id = strip app_id;
  app_password = strip app_password;
  access_token = [];
  token_expires_at = 0;
  running = false;
  service_urls = [];
  http_open = true;
  sent = [];
}

abbrev pub is_slash : ℕ → Bool
is_slash c = nat_eq c b'/'

-- d[key] = value, then d.move_to_end(key)
unfoldable pub to_end : Dict Text Text → Text → Text → Dict Text Text
to_end d key value = pop d key ++ (key, value) ∷ []

-- `while len(d) > limit: d.popitem(last=False)`
unfoldable pub evict : ℕ → Dict Text Text → Dict Text Text
evict limit d = drop (length d - limit) d

abbrev pub recorded : Adapter → Text → Text → Option Bool → Option Adapter
recorded a conversation url none = none
recorded a conversation url (some false) = some a
recorded a conversation url (some true) = some (record a {
  service_urls =
      evict max_service_urls (to_end a.service_urls conversation (rstrip_chars is_slash url));
})

-- None is an exception.
unfoldable pub register_service_url :
    (Text → Bool) → Settings → Adapter → Text → Text → Option Adapter
unfolding to_end evict
register_service_url is_valid s a conversation url =
    recorded a conversation url (is_allowed_service_url is_valid s url)

abbrev pub used : Adapter → Text → Option Text → Text × Adapter
used a conversation none = (default_service_url, a)
used a conversation (some url) =
    (url, record a { service_urls = to_end a.service_urls conversation url })

unfoldable pub get_service_url : Text → Adapter → Text × Adapter
unfolding to_end
get_service_url conversation a = used a conversation (get a.service_urls conversation)

-- `now` is the clock's reading; `ask` and `reply` answer the requests from those sent before, `reply`
-- with the id of the activity, and none where it raises.
module _ (ask : List Request → Token) (reply : List Request → Option Text) (now : ℕ) where
  abbrev pub Run : Type 0 → Type 0
  Run A = Exec Adapter (Unit {0}) A

  abbrev pub send : Request → Run (Unit {0})
  send r = modify λ a. record a { sent = r ∷ a.sent }

  abbrev pub keep_token : Token → Run Text
  keep_token no_token = raise tt
  keep_token (token t none) = do modify λ a. record a { access_token = t }; raise tt
  keep_token (token t (some seconds)) = do
    modify λ a. record a { access_token = t; token_expires_at = now + seconds }
    pure t

  abbrev pub fetch_token : Run Text
  fetch_token = do λ a. send (oauth a.app_id a.app_password) a; λ a. keep_token (ask a.sent) a

  -- `now < expires_at - 60`
  unfoldable pub get_access_token : Run Text
  get_access_token a =
      if not (is_empty a.access_token) && ltb (now + 60) a.token_expires_at
      then pure a.access_token a
      else fetch_token a

  unfoldable pub start : Adapter → Adapter
  unfolding get_access_token
  start a =
      let b = record a { running = true } in
      if not (is_empty a.app_id) && not (is_empty a.app_password) then (get_access_token b).1 else b

  abbrev pub service_url : Text → Run Text
  service_url conversation a = let (url, b) = get_service_url conversation a in (ok url, b)

  abbrev pub activities_of : Text → Text → Text
  activities_of url conversation =
      url ++ codes "/v3/conversations/" ++ conversation ++ codes "/activities"

  abbrev pub answer_of : Option Text → Run Text
  answer_of none = raise tt
  answer_of (some id) = pure id

  abbrev pub answered : Run Text
  answered a = answer_of (reply a.sent) a

  abbrev pub reply_to : Text → Option Text
  reply_to root = if is_empty root then none else some root

  -- Every exception gives "".
  unfoldable pub send_reply : Text → Text → Text → Run Text
  unfolding get_access_token get_service_url
  send_reply channel text root =
      catch
        (do
          t ← get_access_token
          url ← service_url channel
          send (post (activities_of url channel) t (message text (reply_to root)))
          answered)
        λ e. pure []

  unfoldable pub update_reply : Text → Text → Text → Run (Unit {0})
  unfolding get_access_token get_service_url
  update_reply id text channel =
      if is_empty id
      then pure tt
      else if is_empty channel
      then pure tt
      else catch
          (do
            t ← get_access_token
            url ← service_url channel
            send (put (activities_of url channel ++ codes "/" ++ id) t (message text none))
            answered
            pure tt)
          λ e. pure tt

  unfoldable pub send_typing : Text → Run (Unit {0})
  unfolding get_access_token get_service_url
  send_typing channel =
      catch
        (do
          t ← get_access_token
          url ← service_url channel
          send (post (activities_of url channel) t typing)
          answered
          pure tt)
        λ e. pure tt

  abbrev pub file_notes : List Text → Text
  file_notes files = join (10 ∷ []) (map (λ p. codes "📎 Attachment: " ++ p) files)

  unfoldable pub send_post_with_files : Text → Text → List Text → Text → Run Text
  unfolding send_reply
  send_post_with_files channel text files root =
      let noted = if is_empty text then file_notes files else text ++ 10 ∷ 10 ∷ file_notes files in
      send_reply channel (if is_empty files then text else noted) root

unfoldable pub stop : Adapter → Adapter
stop a = record a { running = false; http_open = false }

unfoldable pub is_connected : Adapter → Bool
is_connected a = a.running && not (is_empty a.app_id)

-- What happens to an adapter, with the clock's reading.
pub data Action : Type 0 where
  activity_from : (conversation url : Text) → Action
  started : ℕ → Action
  replied : ℕ → (channel text root : Text) → Action
  edited : ℕ → (id text channel : Text) → Action
  typed : ℕ → (channel : Text) → Action
  shared : ℕ → (channel text : Text) → (files : List Text) → (root : Text) → Action
  stopped : Action

abbrev pub or_same : Adapter → Option Adapter → Adapter
or_same a none = a
or_same a (some b) = b

module _ (is_valid : Text → Bool) (s : Settings) (ask : List Request → Token)
    (reply : List Request → Option Text) where
  unfoldable pub step : Action → Adapter → Adapter
  unfolding register_service_url start send_reply update_reply send_typing send_post_with_files stop
  step (activity_from conversation url) a =
      or_same a (register_service_url is_valid s a conversation url)
  step (started now) a = start ask reply now a
  step (replied now channel text root) a = (send_reply ask reply now channel text root a).1
  step (edited now id text channel) a = (update_reply ask reply now id text channel a).1
  step (typed now channel) a = (send_typing ask reply now channel a).1
  step (shared now channel text files root) a =
      (send_post_with_files ask reply now channel text files root a).1
  step stopped a = stop a

  unfoldable pub steps : List Action → Adapter → Adapter
  unfolding step
  steps [] a = a
  steps (x ∷ xs) a = steps xs (step x a)
