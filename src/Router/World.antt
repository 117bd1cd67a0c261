-- ===== src/Router/World.antt =====
-- What the router keeps and what it calls (src/router.py, `ProviderRegistry` of
-- src/services/chat_adapter.py). Each call that leaves the router is an effect in `log`, the newest
-- first, and how it ends is a function of that log in `Env`: chat platforms, the database, the
-- gateway and the file system are parameters.
use claw_mux.Base.{
  ℕ, Bool, Option, none, List, ◌∷◌, ◌++◌, ◌||◌, ◌==◌, text_key, Text, codes, strip, lower, is_empty,
  if◌then◌else◌, Result, ok, starts_with, remove_prefix, is_some,
}
use claw_mux.Base.Dict.{Dict, get}
use claw_mux.Base.Exec.{Exec, modify}
use claw_mux.Instance.{InstanceInfo}
use claw_mux.Files.Context.{DownloadedFile}

-- An adapter is a number; `post` is the id of a post, and `root` the thread's.
pub data Effect : Type 0 where
  reply : (adapter : ℕ) → (channel text root : Text) → Effect
  update : (adapter : ℕ) → (post text : Text) → (channel : Option Text) → Effect
  post_files :
      (adapter : ℕ) → (channel message : Text) → (files : List Text) → (root : Text) → Effect
  dm : (adapter : ℕ) → (user : Text) → Effect
  typing_on : (adapter : ℕ) → (channel root : Text) → Effect
  typing_off : Effect
  lookup : (provider user : Text) → Effect
  persist : (provider user channel : Text) → Effect
  recall : (provider user : Text) → Effect
  provision : (provider user : Text) → Effect
  ask : (user : Text) → InstanceInfo → (message session : Text) → (stream : Option Text) → Effect
  ask_dify : (user message : Text) → (stream : Option Text) → Effect
  download : List Text → (uuid : Text) → Effect
  upload : (path channel : Text) → Effect
  count : (status : Text) → Effect
  observe : Effect

-- mapping.get_instance_by_identity: InstanceNotFoundError is `not_mapped`.
pub data Lookup : Type 0 where
  found : InstanceInfo → Lookup
  not_mapped : Lookup
  broken : Text → Lookup

-- file_manager.download_attachments: OSError and HTTPError are `io_error`.
pub data Downloads : Type 0 where
  got : List DownloadedFile → Downloads
  io_error : Downloads
  crash : Text → Downloads

pub record Env : Type 0 where
  pub registry : Dict Text ℕ
  pub mattermost : Option ℕ
  pub has_files : Bool  -- self.file_manager
  pub has_dify : Bool  -- self._dify
  pub enable_auto_provisioning : Bool
  pub phrase : List Effect → Text  -- random.choice(thinking_phrases)
  pub decimal : ℕ → Text
  pub realpath : Text → Text
  pub workspace_base_path : Text
  pub send_reply : List Effect → Result Text Text
  pub update_reply : List Effect → Result Text (Unit {0})
  pub send_post_with_files : List Effect → Result Text (Unit {0})
  pub get_or_create_dm_channel : List Effect → Result Text Text
  pub get_cached_info : Text → List Effect → Option InstanceInfo
  pub get_instance_by_identity : List Effect → Lookup
  pub remember_channel : List Effect → Result Text (Unit {0})
  pub get_channel : List Effect → Result Text (Option Text)
  pub provision_instance : List Effect → Result Text InstanceInfo
  pub send_message : List Effect → Result Text (Text × List Text)
  pub chat : List Effect → Result Text Text
  pub download_attachments : List Effect → Downloads
  pub upload_to_mattermost : List Effect → Result Text (Option Text)

pub record World : Type 0 where
  pub user_channels : Dict Text Text
  pub log : List Effect

pub record ChannelEvent : Type 0 where
  pub provider : Text
  pub user_id : Text
  pub channel_id : Text
  pub text : Text
  pub root_id : Text
  pub file_ids : List Text

abbrev pub Run : Type 0 → Type 0
Run A = Exec World Text A

-- A call that leaves the router: it is logged, and the environment answers.
abbrev pub call : {A : Type 0} → Effect → (List Effect → A) → Run A
call e answer w = let log = e ∷ w.log in (ok (answer log), record w { log = log })

-- The same where the call may raise.
abbrev pub try_call : {A : Type 0} → Effect → (List Effect → Result Text A) → Run A
try_call e answer w = let log = e ∷ w.log in (answer log, record w { log = log })

abbrev pub note : Effect → Run Unit
note e = modify λ w. record w { log = e ∷ w.log }

-- ProviderRegistry.get
unfoldable pub registered_adapter : Dict Text ℕ → Text → Option ℕ
registered_adapter registry name = get registry (lower (strip name))

abbrev pub default_provider : Text
default_provider = codes "mattermost"

unfoldable pub get_adapter : Env → Text → Option ℕ
unfolding registered_adapter
get_adapter env provider =
    let adapter = registered_adapter env.registry provider in
    if is_some adapter
    then adapter
    else if provider == default_provider || is_empty provider
    then env.mattermost
    else none

abbrev pub prefix_of : Text → Text
prefix_of provider = provider ++ codes ":"

unfoldable pub identity_key : Text → Text → Text
identity_key provider user = prefix_of provider ++ user

unfoldable pub normalize_identity_key : Text → Text → Text
unfolding identity_key
normalize_identity_key provider user =
    if starts_with user (prefix_of provider) then user else identity_key provider user

unfoldable pub provider_user_id : Text → Text → Text
provider_user_id key provider =
    if starts_with key (prefix_of provider) then remove_prefix (prefix_of provider) key else key

-- f"{provider}:chan:{channel_id}"
abbrev pub session_of : Text → Text → Text
session_of provider channel = provider ++ codes ":chan:" ++ channel
