-- ===== src/Router/Event.antt =====
-- One incoming message: `handle_event` and `_handle_dify_fallback` of src/router.py. The drafts that
-- arrive during a request are in Stream; the effect of the request names their post.
use claw_mux.Base.{
  ℕ, not, ◌&&◌, Option, none, some, List, [], ◌∷◌, ◌++◌, ◌==◌, text_key, Text, codes, strip,
  is_empty, if◌then◌else◌,
}
use claw_mux.Base.Exec.{pure, raise, gets, catch, finally, ◌>>=◌, ◌>>◌}
use claw_mux.Instance.{InstanceInfo}
use claw_mux.Files.Context.{build_attachment_context}
use claw_mux.Files.Paths.{extract_uuid_from_instance_url, container_path_to_host}
use claw_mux.Router.World.{
  reply, update, post_files, typing_on, typing_off, lookup, provision, ask, ask_dify, download,
  upload, count, observe, Lookup, found, not_mapped, broken, Downloads, got, io_error, crash, Env,
  ChannelEvent, Run, call, try_call, note, default_provider, get_adapter, identity_key, session_of,
}
use claw_mux.Router.Channels.{remember_channel}

module _ (env : Env) (ev : ChannelEvent) (a : ℕ) where
  abbrev pub send : Text → Run Text
  send text = try_call (reply a ev.channel_id text ev.root_id) env.send_reply

  abbrev pub say : Text → Run Unit
  say text = do send text; pure tt

  -- Mattermost's posts are updated without the channel.
  abbrev pub edit : Text → Text → Run Unit
  edit post text =
      try_call
        (update a post text (if ev.provider == default_provider then none else some ev.channel_id))
        env.update_reply

  abbrev pub edit_in_channel : Text → Text → Run Unit
  edit_in_channel post text = try_call (update a post text (some ev.channel_id)) env.update_reply

  -- A random phrase, or "" where it could not be posted.
  unfoldable pub placeholder : Run Text
  placeholder = do text ← gets λ w. env.phrase w.log; catch (send text) λ e. pure []

  abbrev pub stream_of : Text → Option Text
  stream_of post = if is_empty post then none else some post

  -- `typing_task`: started before the body, cancelled in its `finally`.
  abbrev pub while_typing : Run Unit → Run Unit
  while_typing body = do
    note (typing_on a ev.channel_id ev.root_id)
    finally body λ w. record w { log = observe ∷ typing_off ∷ w.log }

  abbrev pub edit_or_say : Text → Text → Run Unit
  edit_or_say post text = if is_empty post then say text else edit post text

  abbrev pub edit_in_channel_or_say : Text → Text → Run Unit
  edit_in_channel_or_say post text = if is_empty post then say text else edit_in_channel post text

  -- ── Dify ──

  abbrev pub no_response : Text
  no_response = codes "❌ Unable to get a response. Please try again later."

  abbrev pub request_error : Text
  request_error = codes "❌ An error occurred while processing the request. Please try again later."

  abbrev pub dify_body : Text → Run Unit
  dify_body post = do
    response ← try_call (ask_dify ev.user_id ev.text (stream_of post)) env.chat
    edit_in_channel_or_say post (if is_empty response then no_response else response)
    note (count (if is_empty response then codes "dify_fallback_empty" else codes "dify_fallback"))

  abbrev pub dify_failed : Text → Run Unit
  dify_failed post = do
    note (count (codes "dify_fallback_error"))
    catch (edit_in_channel_or_say post request_error) λ e. pure tt

  unfoldable pub handle_dify_fallback : Run Unit
  unfolding placeholder
  handle_dify_fallback = do
    post ← placeholder
    while_typing (catch (dify_body post) λ e. dify_failed post)

  -- ── The instance of the user; none where the event is finished ──

  abbrev pub unassigned : Text
  unassigned =
      0x26a0
      ∷ 0xfe0f
      ∷ codes " No OpenClaw instance is assigned to your account. Please contact the administrator."

  abbrev pub not_initialized : Text → Text
  not_initialized e = codes "❌ Failed to initialize your workspace: " ++ e

  abbrev pub provisioned : Run InstanceInfo
  provisioned = do
    post ← send (codes "⏳ Initializing your personal OpenClaw workspace...")
    info ← try_call (provision ev.provider ev.user_id) env.provision_instance
    if is_empty post
        then pure tt
        else edit post (codes "✅ Workspace ready! Processing your message...")
    pure info

  abbrev pub not_provisioned : Text → Run (Option InstanceInfo)
  not_provisioned e = do
    note (count (codes "provisioning_failed"))
    if env.has_dify then handle_dify_fallback else say (not_initialized e)
    pure none

  unfoldable pub unmapped : Run (Option InstanceInfo)
  unfolding handle_dify_fallback
  unmapped =
      if env.enable_auto_provisioning
      then catch (do info ← provisioned; pure (some info)) not_provisioned
      else do
        note (count (codes "unmapped"))
        if env.has_dify then handle_dify_fallback else say unassigned
        pure none

  abbrev pub looked_up : Lookup → Run (Option InstanceInfo)
  looked_up (found info) = pure (some info)
  looked_up not_mapped = unmapped
  looked_up (broken e) = raise e

  abbrev pub or_lookup : Option InstanceInfo → Run (Option InstanceInfo)
  or_lookup (some info) = pure (some info)
  or_lookup none = do
    l ← call (lookup ev.provider ev.user_id) env.get_instance_by_identity
    looked_up l

  unfoldable pub resolve : Run (Option InstanceInfo)
  unfolding unmapped
  resolve = do
    cached ← gets λ w. env.get_cached_info (identity_key ev.provider ev.user_id) w.log
    or_lookup cached

  -- ── The attachments ──

  abbrev pub with_context : Text → Text → Text
  with_context text context =
      if is_empty context
      then text
      else if is_empty (strip text)
      then codes "User attached file(s) without text." ++ context
      else text ++ context

  abbrev pub downloaded : Downloads → Run Text
  downloaded (got files) = pure (with_context ev.text (build_attachment_context env.decimal files))
  downloaded io_error = pure ev.text
  downloaded (crash e) = raise e

  abbrev pub download_to : Option Text → Run Text
  download_to none = pure ev.text
  download_to (some uuid) = do
    files ← call (download ev.file_ids uuid) env.download_attachments
    downloaded files

  unfoldable pub attach : InstanceInfo → Run Text
  attach info =
      if not (is_empty ev.file_ids) && env.has_files
      then download_to (extract_uuid_from_instance_url info.instance_url)
      else pure ev.text

  -- ── The answer and its files ──

  abbrev pub add_uploaded : List Text → Option Text → List Text
  add_uploaded fids none = fids
  add_uploaded fids (some f) = if is_empty f then fids else fids ++ f ∷ []

  -- The id or the path of one file, if it has one.
  abbrev pub upload_one : Text → Run (Option Text)
  upload_one path =
      if is_empty path
      then pure none
      else if ev.provider == default_provider && env.has_files
      then try_call (upload path ev.channel_id) env.upload_to_mattermost
      else pure (some path)

  unfoldable pub upload_all : Text → List Text → List Text → Run (List Text)
  upload_all uuid [] fids = pure fids
  upload_all uuid (p ∷ ps) fids = do
    f ← upload_one (container_path_to_host env.realpath env.workspace_base_path p uuid)
    upload_all uuid ps (add_uploaded fids f)

  abbrev pub upload_for : Option Text → List Text → Run (List Text)
  upload_for none paths = pure []
  upload_for (some uuid) paths = upload_all uuid paths []

  abbrev pub post_with_files : Text → List Text → Run Unit
  post_with_files message files =
      try_call (post_files a ev.channel_id message files ev.root_id) env.send_post_with_files

  abbrev pub deliver_files : Text → Text → List Text → Run Unit
  deliver_files post response [] = edit_or_say post response
  deliver_files post response (f ∷ fs) =
      if is_empty post
      then post_with_files response (f ∷ fs)
      else do edit post response; post_with_files [] (f ∷ fs)

  unfoldable pub deliver : InstanceInfo → Text → Text → List Text → Run Unit
  unfolding upload_all
  deliver info post response paths = do
    files ← upload_for (extract_uuid_from_instance_url info.instance_url) paths
    deliver_files post response files
    note (count (codes "success"))

  abbrev pub route_body : InstanceInfo → Text → Text → Run Unit
  route_body info message post = do
    answer ←
        try_call
          (ask (identity_key ev.provider ev.user_id) info message
            (session_of ev.provider ev.channel_id) (stream_of post))
          env.send_message
    if is_empty answer.0 then note (count (codes "empty")) else deliver info post answer.0 answer.1

  abbrev pub route_failed : Run Unit
  route_failed = do note (count (codes "error")); say request_error

  unfoldable pub route : InstanceInfo → Run Unit
  unfolding attach placeholder deliver
  route info = do
    message ← attach info
    post ← placeholder
    while_typing (catch (route_body info message post) λ e. route_failed)

  abbrev pub route_opt : Option InstanceInfo → Run Unit
  route_opt none = pure tt
  route_opt (some info) = route info

  unfoldable pub handle_by : Run Unit
  unfolding resolve route
  handle_by = do
    remember_channel env (identity_key ev.provider ev.user_id) ev.provider ev.user_id ev.channel_id
    info ← resolve
    route_opt info

abbrev pub handle_with : Env → ChannelEvent → Option ℕ → Run Unit
handle_with env ev none = pure tt
handle_with env ev (some a) = handle_by env ev a

unfoldable pub handle_event : Env → ChannelEvent → Run Unit
unfolding handle_by
handle_event env ev = handle_with env ev (get_adapter env ev.provider)
