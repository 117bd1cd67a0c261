-- ===== src/Router/Handler.antt =====
-- What the pieces of `handle_event` leave as it was.
use claw_mux.Base.{
  ℕ, ◌≡◌, refl, not, ◌&&◌, Option, none, some, List, [], ◌∷◌, ◌==◌, text_key, if◌then◌else◌, Text,
  codes, is_empty,
}
use claw_mux.Base.Exec.{gets}
use claw_mux.Instance.{InstanceInfo}
use claw_mux.Router.World.{
  reply, update, post_files, lookup, provision, ask, ask_dify, download, upload, count, Lookup,
  found, not_mapped, broken, Downloads, got, io_error, crash, Env, World, ChannelEvent, Run,
  try_call, note, default_provider,
}
use claw_mux.Router.Event.{
  placeholder, stream_of, while_typing, edit_or_say, edit_in_channel_or_say, edit, edit_in_channel,
  say, send, dify_failed, request_error, handle_dify_fallback, provisioned, not_provisioned,
  unassigned, not_initialized, unmapped, looked_up, or_lookup, resolve, downloaded, download_to,
  attach, add_uploaded, upload_one, upload_all, upload_for, post_with_files, deliver_files, deliver,
  route_body, route_failed, route, route_opt,
}
use claw_mux.Router.Keeps.{
  Keeps, Keeps-pure, Keeps-raise, Keeps-gets, Keeps-if, Keeps-bind, Keeps-catch, Measure, Keeps-try,
  Keeps-call, Keeps-note, log_effect,
}

module _ {B : Type 0} {f : World → B} (μ : Measure f) (env : Env) (ev : ChannelEvent) (a : ℕ) where
  while_typing-Keeps : (m : Run Unit) → Keeps f m → Keeps f (while_typing env ev a m)
  while_typing-Keeps m h = record { run = λ w. μ.typing a ev.channel_id ev.root_id w m h }

  send-Keeps : (t : Text) → Keeps f (send env ev a t)
  send-Keeps t = Keeps-try μ (reply a ev.channel_id t ev.root_id) env.send_reply refl

  edit-Keeps : (post t : Text) → Keeps f (edit env ev a post t)
  edit-Keeps post t =
      Keeps-try μ
        (update a post t (if ev.provider == default_provider then none else some ev.channel_id))
        env.update_reply refl

  edit_in_channel-Keeps : (post t : Text) → Keeps f (edit_in_channel env ev a post t)
  edit_in_channel-Keeps post t =
      Keeps-try μ (update a post t (some ev.channel_id)) env.update_reply refl

  post_with_files-Keeps : (t : Text) (fs : List Text) → Keeps f (post_with_files env ev a t fs)
  post_with_files-Keeps t fs =
      Keeps-try μ (post_files a ev.channel_id t fs ev.root_id) env.send_post_with_files refl

  count-Keeps : (t : Text) → Keeps f (note (count t))
  count-Keeps t = Keeps-note μ (count t) refl

  say-Keeps : (t : Text) → Keeps f (say env ev a t)
  say-Keeps t = Keeps-bind (send env ev a t) _ (send-Keeps t) λ x. Keeps-pure tt

  edit_or_say-Keeps : (post t : Text) → Keeps f (edit_or_say env ev a post t)
  edit_or_say-Keeps post t = Keeps-if (is_empty post) (say-Keeps t) (edit-Keeps post t)

  in_channel-Keeps : (post t : Text) → Keeps f (edit_in_channel_or_say env ev a post t)
  in_channel-Keeps post t = Keeps-if (is_empty post) (say-Keeps t) (edit_in_channel-Keeps post t)

  placeholder-Keeps : Keeps f (placeholder env ev a)
  unfolding placeholder
  placeholder-Keeps =
      Keeps-bind (gets λ w. env.phrase w.log) _ (Keeps-gets _)
        λ t. Keeps-catch (send env ev a t) _ (send-Keeps t) λ e. Keeps-pure []

  dify_failed-Keeps : (post : Text) → Keeps f (dify_failed env ev a post)
  dify_failed-Keeps post =
      Keeps-bind (note (count (codes "dify_fallback_error"))) _
        (count-Keeps (codes "dify_fallback_error"))
        λ x.
          Keeps-catch (edit_in_channel_or_say env ev a post (request_error env ev a)) _
            (in_channel-Keeps post (request_error env ev a)) λ e. Keeps-pure tt

  dify_fallback-Keeps : Keeps f (handle_dify_fallback env ev a)
  unfolding handle_dify_fallback
  dify_fallback-Keeps = Keeps-bind _ _ placeholder-Keeps λ post. while_typing-Keeps _ (
      Keeps-catch _ _
        (Keeps-bind _ _
          (Keeps-try μ (ask_dify ev.user_id ev.text (stream_of env ev a post)) env.chat refl)
          λ r. Keeps-bind _ _ (in_channel-Keeps post _) λ x. count-Keeps _)
        λ e. dify_failed-Keeps post)

  provisioned-Keeps : Keeps f (provisioned env ev a)
  provisioned-Keeps = Keeps-bind _ _ (send-Keeps _) λ post.
      Keeps-bind _ _ (Keeps-try μ (provision ev.provider ev.user_id) env.provision_instance refl)
        λ info.
          Keeps-bind _ _ (Keeps-if (is_empty post) (Keeps-pure tt) (edit-Keeps post _))
            λ x. Keeps-pure info

  not_provisioned-Keeps : (e : Text) → Keeps f (not_provisioned env ev a e)
  not_provisioned-Keeps e = Keeps-bind _ _ (count-Keeps (codes "provisioning_failed")) λ x.
      Keeps-bind _ _
        (Keeps-if env.has_dify dify_fallback-Keeps (say-Keeps (not_initialized env ev a e)))
        λ x. Keeps-pure none

  unmapped-Keeps : Keeps f (unmapped env ev a)
  unfolding unmapped
  unmapped-Keeps =
      Keeps-if env.enable_auto_provisioning
        (Keeps-catch _ _ (Keeps-bind _ _ provisioned-Keeps λ info. Keeps-pure (some info))
          not_provisioned-Keeps)
        (Keeps-bind _ _ (count-Keeps (codes "unmapped")) λ x.
          Keeps-bind _ _
            (Keeps-if env.has_dify dify_fallback-Keeps (say-Keeps (unassigned env ev a)))
            λ x. Keeps-pure none)

  looked_up-Keeps : (l : Lookup) → Keeps f (looked_up env ev a l)
  looked_up-Keeps (found info) = Keeps-pure (some info)
  looked_up-Keeps not_mapped = unmapped-Keeps
  looked_up-Keeps (broken e) = Keeps-raise e

  or_lookup-Keeps : (i : Option InstanceInfo) → Keeps f (or_lookup env ev a i)
  or_lookup-Keeps (some info) = Keeps-pure (some info)
  or_lookup-Keeps none =
      Keeps-bind _ _
        (Keeps-call μ (lookup ev.provider ev.user_id) env.get_instance_by_identity refl)
        looked_up-Keeps

  pub resolve-Keeps : Keeps f (resolve env ev a)
  unfolding resolve
  resolve-Keeps = Keeps-bind _ _ (Keeps-gets _) or_lookup-Keeps

  downloaded-Keeps : (d : Downloads) → Keeps f (downloaded env ev a d)
  downloaded-Keeps (got files) = Keeps-pure _
  downloaded-Keeps io_error = Keeps-pure _
  downloaded-Keeps (crash e) = Keeps-raise e

  download_to-Keeps : (u : Option Text) → Keeps f (download_to env ev a u)
  download_to-Keeps none = Keeps-pure _
  download_to-Keeps (some uuid) =
      Keeps-bind _ _ (Keeps-call μ (download ev.file_ids uuid) env.download_attachments refl)
        downloaded-Keeps

  attach-Keeps : (info : InstanceInfo) → Keeps f (attach env ev a info)
  unfolding attach
  attach-Keeps info =
      Keeps-if (not (is_empty ev.file_ids) && env.has_files) (download_to-Keeps _) (Keeps-pure _)

  upload_one-Keeps : (path : Text) → Keeps f (upload_one env ev a path)
  upload_one-Keeps path = Keeps-if (is_empty path) (Keeps-pure none) (
      Keeps-if (ev.provider == default_provider && env.has_files)
        (Keeps-try μ (upload path ev.channel_id) env.upload_to_mattermost refl)
        (Keeps-pure (some path)))

  upload_all-Keeps :
      (uuid : Text) (ps fids : List Text) → Keeps f (upload_all env ev a uuid ps fids)
  unfolding upload_all
  upload_all-Keeps uuid [] fids = Keeps-pure fids
  upload_all-Keeps uuid (p ∷ ps) fids =
      Keeps-bind _ _ (upload_one-Keeps _)
        λ r. upload_all-Keeps uuid ps (add_uploaded env ev a fids r)

  upload_for-Keeps : (u : Option Text) (ps : List Text) → Keeps f (upload_for env ev a u ps)
  upload_for-Keeps none ps = Keeps-pure []
  upload_for-Keeps (some uuid) ps = upload_all-Keeps uuid ps []

  deliver_files-Keeps :
      (post t : Text) (fs : List Text) → Keeps f (deliver_files env ev a post t fs)
  deliver_files-Keeps post t [] = edit_or_say-Keeps post t
  deliver_files-Keeps post t (x ∷ fs) =
      Keeps-if (is_empty post) (post_with_files-Keeps t (x ∷ fs))
        (Keeps-bind _ _ (edit-Keeps post t) λ y. post_with_files-Keeps [] (x ∷ fs))

  deliver-Keeps :
      (info : InstanceInfo) (post t : Text) (ps : List Text)
      → Keeps f (deliver env ev a info post t ps)
  unfolding deliver
  deliver-Keeps info post t ps =
      Keeps-bind _ _ (upload_for-Keeps _ ps)
        λ fs. Keeps-bind _ _ (deliver_files-Keeps post t fs) λ x. count-Keeps _

  route_failed-Keeps : Keeps f (route_failed env ev a)
  route_failed-Keeps =
      Keeps-bind (note (count (codes "error"))) _ (count-Keeps (codes "error"))
        λ x. say-Keeps (request_error env ev a)

  -- The one request to OpenClaw.
  module _
      (asked : (u : Text) (i : InstanceInfo) (m s : Text) (p : Option Text) (w : World)
        → f (log_effect (ask u i m s p) w) ≡ f w) where
    route_body-Keeps :
        (info : InstanceInfo) (message post : Text)
        → Keeps f (route_body env ev a info message post)
    route_body-Keeps info message post =
        Keeps-bind (try_call (ask _ info message _ _) env.send_message) _
          (record { run = λ w. asked _ info message _ _ w })
          λ r. Keeps-if (is_empty r.0) (count-Keeps _) (deliver-Keeps info post r.0 r.1)

    pub route_opt-Keeps : (i : Option InstanceInfo) → Keeps f (route_opt env ev a i)
    unfolding route
    route_opt-Keeps none = Keeps-pure tt
    route_opt-Keeps (some info) = Keeps-bind _ _ (attach-Keeps info) λ message.
        Keeps-bind _ _ placeholder-Keeps λ post.
          while_typing-Keeps _
            (Keeps-catch _ _ (route_body-Keeps info message post) λ e. route_failed-Keeps)
