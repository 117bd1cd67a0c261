-- ===== src/Router/Channels.antt =====
-- The channel of a user: `_remember_channel`, `get_or_create_channel`, `handle_proactive` and
-- `trigger_message` of src/router.py.
use claw_mux.Base.{ℕ, Option, none, some, [], ◌∷◌, text_key, Text, codes, is_empty, if◌then◌else◌}
use claw_mux.Base.Dict.{get, put}
use claw_mux.Base.Exec.{pure, modify, gets, catch, finally, ◌>>=◌, ◌>>◌}
use claw_mux.Instance.{InstanceInfo}
use claw_mux.Router.World.{
  reply, persist, recall, dm, ask, observe, Env, Run, try_call, get_adapter, identity_key,
  normalize_identity_key, provider_user_id, session_of, default_provider,
}

abbrev pub cache_channel : Text → Text → Run Unit
cache_channel key channel = modify λ w. record w { user_channels = put w.user_channels key channel }

-- A failure of the database is only logged.
unfoldable pub remember_channel : Env → Text → Text → Text → Text → Run Unit
remember_channel env key provider user channel = do
  cache_channel key channel
  catch (try_call (persist provider user channel) env.remember_channel) λ e. pure tt

abbrev pub or_empty : Option Text → Text
or_empty none = []
or_empty (some t) = t

-- The last lines: a direct channel of the platform.
unfoldable pub create_channel : Env → Text → Text → Text → Option ℕ → Run Text
unfolding remember_channel
create_channel env key user provider none = pure []
create_channel env key user provider (some a) = do
  channel ← try_call (dm a user) env.get_or_create_dm_channel
  if is_empty channel
      then pure []
      else (do remember_channel env key provider user channel; pure channel)

-- `if not channel_id:`, after the database has answered.
abbrev pub or_create : Env → Text → Text → Text → Text → Run Text
or_create env key user provider channel =
    if is_empty channel
    then create_channel env key user provider (get_adapter env provider)
    else do cache_channel key channel; pure channel

unfoldable pub get_or_create_channel : Env → Text → Text → Text → Run Text
unfolding create_channel
get_or_create_channel env key user provider = do
  cached ← gets λ w. or_empty (get w.user_channels key)
  if is_empty cached
      then (do
        known ← catch (try_call (recall provider user) env.get_channel) λ e. pure none
        or_create env key user provider (or_empty known))
      else create_channel env key user provider (get_adapter env provider)

abbrev pub deliver_proactive : Env → Text → Text → ℕ → Run Unit
deliver_proactive env channel text a =
    if is_empty channel
    then pure tt
    else if is_empty text
    then pure tt
    else catch (do try_call (reply a channel text []) env.send_reply; pure tt) λ e. pure tt

abbrev pub proactive_by : Env → Text → Text → Text → Option ℕ → Run Unit
proactive_by env key text provider none = pure tt
proactive_by env key text provider (some a) = do
  channel ← get_or_create_channel env key (provider_user_id key provider) provider
  deliver_proactive env channel text a

unfoldable pub handle_proactive : Env → Text → Text → Text → Run Unit
unfolding get_or_create_channel
handle_proactive env user text provider =
    proactive_by env (normalize_identity_key provider user) text provider (get_adapter env provider)

-- The callback that `_make_proactive_cb` of src/services/ws_manager.py gives a client, with the handler
-- that src/main.py sets: the identity key of the client's user, and no provider.
unfoldable pub on_proactive : Env → Text → Text → Run Unit
unfolding handle_proactive
on_proactive env user text = handle_proactive env user text default_provider

-- `if channel_id and adapter: await adapter.send_reply(...)`
abbrev pub reply_to : Env → Option ℕ → Text → Text → Run Unit
reply_to env none channel text = pure tt
reply_to env (some a) channel text =
    if is_empty channel
    then pure tt
    else do try_call (reply a channel text []) env.send_reply; pure tt

abbrev pub task_error : Text
task_error = codes "❌ An error occurred while executing the background task."

abbrev pub triggered : Env → Text → InstanceInfo → Text → Text → Text → Option ℕ → Run Unit
triggered env key info text session channel adapter =
    finally
      (catch
        (do
          answer ← try_call (ask key info text session none) env.send_message
          if is_empty answer.0 then pure tt else reply_to env adapter channel answer.0)
        λ e. reply_to env adapter channel task_error)
      λ w. record w { log = observe ∷ w.log }

abbrev pub trigger_session : Option Text → Text → Text → Text
trigger_session session provider channel =
    if is_empty (or_empty session)
    then if is_empty channel then codes "agent:main:main" else session_of provider channel
    else or_empty session

unfoldable pub trigger_message : Env → Text → InstanceInfo → Text → Option Text → Text → Run Unit
unfolding get_or_create_channel
trigger_message env user info text session provider = do
  channel ← get_or_create_channel env (identity_key provider user) user provider
  triggered env (identity_key provider user) info text (trigger_session session provider channel)
      channel (get_adapter env provider)
