-- ===== src/Router/Proactive.antt =====
-- Where a proactive message goes, and the keys of the users.
use claw_mux.Base.{
  ℕ, ◌≡◌, refl, ap, ◌∙◌, false, none, some, [], ◌∷◌, text_key, Text, is_empty, drop-append,
  starts_with-append, Result, ok, err,
}
use claw_mux.Base.Dict.{get, get-put_self}
use claw_mux.Base.Exec.{pure, recover, proceed}
use claw_mux.Router.World.{
  reply, persist, dm, recall, Env, World, get_adapter, identity_key, normalize_identity_key,
  provider_user_id, prefix_of,
}
use claw_mux.Router.Channels.{
  remember_channel, get_or_create_channel, create_channel, handle_proactive,
}

-- The key of a user gives the user's id back, and normalizing a key leaves it as it is.
pub identity_round_trip :
    (provider user : Text)
    → (provider_user_id (identity_key provider user) provider ≡ user)
      × (normalize_identity_key provider (identity_key provider user) ≡ identity_key provider user)
unfolding provider_user_id identity_key normalize_identity_key
identity_round_trip provider user = (
  rw (starts_with-append (prefix_of provider) user) (drop-append (prefix_of provider) user),
  rw (starts_with-append (prefix_of provider) user) refl,
)

recovered : (r : Result Text (Unit {0})) (w : World) → recover r (λ e. pure tt) w ≡ (ok tt, w)
recovered (ok tt) w = refl
recovered (err e) w = refl

-- A proactive message that the platform refuses is only logged.
after_send : Result Text Text → World → World
after_send r w =
    (recover (proceed r (λ t. pure tt) w).0 (λ e. pure tt)
      (proceed r (λ t. pure {E = Text} tt) w).1).1

sent : (r : Result Text Text) (w : World) → after_send r w ≡ w
unfolding after_send
sent (ok t) w = refl
sent (err e) w = refl

-- With a channel in the cache, a proactive message goes to the direct channel that the platform
-- gives, where it gives one, and that channel takes the cached one's place.
pub proactive_leaves_cached_channel :
    (env : Env) (provider user text c d : Text) (a : ℕ) (w : World)
    → get_adapter env provider ≡ some a
    → get w.user_channels (identity_key provider user) ≡ some c
    → is_empty c ≡ false
    → is_empty text ≡ false
    → env.get_or_create_dm_channel (dm a user ∷ w.log) ≡ ok d
    → is_empty d ≡ false
    → ((handle_proactive env (identity_key provider user) text provider w).1.log
        ≡ reply a d text [] ∷ persist provider user d ∷ dm a user ∷ w.log)
      × (get
            (handle_proactive env (identity_key provider user) text provider w).1.user_channels
            (identity_key provider user)
          ≡ some d)
unfolding handle_proactive get_or_create_channel create_channel remember_channel
proactive_leaves_cached_channel env provider user text c d a w ea ec nc nt ed nd =
    let n = identity_round_trip provider user in
    rw
      (
        n.1,
        ea,
        n.0,
        ec,
        nc,
        ea,
        ed,
        nd,
        recovered (env.remember_channel (persist provider user d ∷ dm a user ∷ w.log)),
        nd,
        nt,
      )
      (unfold after_send in
        (
          ap (λ (v : World). v.log)
              (sent
                (env.send_reply (reply a d text [] ∷ persist provider user d ∷ dm a user ∷ w.log))
                _),
          ap (λ (v : World). get v.user_channels (identity_key provider user))
                (sent
                  (env.send_reply (reply a d text [] ∷ persist provider user d ∷ dm a user ∷ w.log))
                  _)
              ∙ get-put_self w.user_channels (identity_key provider user) d,
        ))

-- With no channel in the cache, it goes to the channel that the database has, and no direct channel
-- is asked for.
pub proactive_uses_stored_channel :
    (env : Env) (provider user text c : Text) (a : ℕ) (w : World)
    → get_adapter env provider ≡ some a
    → get w.user_channels (identity_key provider user) ≡ none
    → env.get_channel (recall provider user ∷ w.log) ≡ ok (some c)
    → is_empty c ≡ false
    → is_empty text ≡ false
    → (handle_proactive env (identity_key provider user) text provider w).1.log
      ≡ reply a c text [] ∷ recall provider user ∷ w.log
unfolding handle_proactive get_or_create_channel create_channel remember_channel
proactive_uses_stored_channel env provider user text c a w ea ec eg nc nt =
    let n = identity_round_trip provider user in
    rw (n.1, ea, n.0, ec, eg, nc, nc, nt)
      (unfold after_send in
        ap (λ (v : World). v.log)
          (sent (env.send_reply (reply a c text [] ∷ recall provider user ∷ w.log)) _))
