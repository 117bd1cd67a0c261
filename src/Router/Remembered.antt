-- ===== src/Router/Remembered.antt =====
-- The channel that the router knows of a user.
use claw_mux.Base.{ℕ, ◌≡◌, refl, ◌∙◌, ap, some, Text, text_key, Result, ok, err}
use claw_mux.Base.Dict.{Dict, get, put, get-put_self}
use claw_mux.Base.Exec.{proceed, catch, pure, ◌>>=◌}
use claw_mux.Router.World.{
  persist, typing_on, Env, World, ChannelEvent, try_call, get_adapter, identity_key,
}
use claw_mux.Router.Channels.{remember_channel}
use claw_mux.Router.Event.{handle_event, handle_by, resolve, route_opt}
use claw_mux.Router.Keeps.{
  Keeps, Keeps-pure, Keeps-bind, Keeps-catch, Keeps-try, Measure, log_effect,
}
use claw_mux.Router.Handler.{resolve-Keeps, route_opt-Keeps}

abbrev channels : World → Dict Text Text
channels w = w.user_channels

channels-Measure : Measure channels
channels-Measure = record {
  plain = λ e w h. refl;
  typing = λ a c r w m h. h.run (log_effect (typing_on a c r) w);
}

handled-Keeps :
    (env : Env) (ev : ChannelEvent) (a : ℕ)
    → Keeps channels (resolve env ev a >>= route_opt env ev a)
handled-Keeps env ev a =
    Keeps-bind (resolve env ev a) (route_opt env ev a) (resolve-Keeps channels-Measure env ev a)
      (route_opt-Keeps channels-Measure env ev a λ u i m s p w. refl)

persist-Keeps :
    (env : Env) (provider user channel : Text)
    → Keeps channels
        (catch (try_call (persist provider user channel) env.remember_channel) λ e. pure tt)
persist-Keeps env provider user channel =
    Keeps-catch (try_call (persist provider user channel) env.remember_channel) _
      (Keeps-try channels-Measure (persist provider user channel) env.remember_channel refl)
      λ e. Keeps-pure tt

-- Behind an event that an adapter takes, the router knows its channel as the user's last one,
-- however the event ended and even if the database refused to store it.
pub handle_event_remembers :
    (env : Env) (ev : ChannelEvent) (a : ℕ) (w : World)
    → get_adapter env ev.provider ≡ some a
    → get (handle_event env ev w).1.user_channels (identity_key ev.provider ev.user_id)
      ≡ some ev.channel_id
unfolding handle_event handle_by remember_channel
handle_event_remembers env ev a w e =
    let key = identity_key ev.provider ev.user_id in
    let cached : World = record w { user_channels = put w.user_channels key ev.channel_id } in
    let m =
      catch (try_call (persist ev.provider ev.user_id ev.channel_id) env.remember_channel)
        (λ e. pure tt) in
    rw e (
      ap (λ (d : Dict Text Text). get d key)
        (after (m cached).0 (m cached).1
          ∙ (persist-Keeps env ev.provider ev.user_id ev.channel_id).run cached)
      ∙ get-put_self w.user_channels key ev.channel_id)
  where
    after :
        (r : Result Text (Unit {0})) (v : World)
        → (proceed r (λ x. resolve env ev a >>= route_opt env ev a) v).1.user_channels
          ≡ v.user_channels
    after (ok x) v = (handled-Keeps env ev a).run v
    after (err x) v = refl
