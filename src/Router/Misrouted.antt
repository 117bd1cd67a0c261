-- ===== src/Router/Misrouted.antt =====
-- Which adapters the proactive messages of a connection reach.
use claw_mux.Base.{
  ℕ, suc, text_key, ◌≡◌, ◌≢◌, refl, ap, Bool, false, Option, none, some, inl, inr, List, [], ◌∷◌,
  if◌then◌else◌, nat_eq, nat_eq_iff, Text, is_empty, Bool-cases,
}
use claw_mux.Base.Dict.{get}
use claw_mux.Router.World.{
  Effect, reply, update, post_files, dm, typing_on, persist, recall, default_provider, Env, World,
  try_call, get_adapter, normalize_identity_key, provider_user_id,
}
use claw_mux.Router.Keeps.{Keeps, Keeps-pure, Keeps-bind, Keeps-catch, Keeps-if, Keeps-gets}
use claw_mux.Router.Channels.{
  remember_channel, cache_channel, create_channel, or_create, or_empty, get_or_create_channel,
  deliver_proactive, proactive_by, handle_proactive, on_proactive,
}

-- The adapter that an effect calls.
abbrev pub called : Effect → Option ℕ
called (reply a c t r) = some a
called (update a p t c) = some a
called (post_files a c m f r) = some a
called (dm a u) = some a
called (typing_on a c r) = some a
called e = none

abbrev calls_adapter : ℕ → Option ℕ → Bool
calls_adapter a none = false
calls_adapter a (some b) = nat_eq b a

-- How often an adapter was called.
unfoldable pub calls_of : ℕ → List Effect → ℕ
calls_of a [] = 0
calls_of a (e ∷ log) =
    let rest = calls_of a log in if calls_adapter a (called e) then suc rest else rest

module _ (a b : ℕ) (other : nat_eq b a ≡ false) where
  abbrev calls : World → ℕ
  calls w = calls_of a w.log

  Keeps-effect :
      {A : Type 0} (e : Effect) (g : List Effect → _)
      → calls_adapter a (called e) ≡ false
      → Keeps {A = A} calls (try_call e g)
  unfolding calls_of
  Keeps-effect e g h = record { run = λ w. rw h refl }

  Keeps-cached : (key channel : Text) → Keeps calls (cache_channel key channel)
  Keeps-cached key channel = record { run = λ w. refl }

  remember-calls :
      (env : Env) (key provider user channel : Text)
      → Keeps calls (remember_channel env key provider user channel)
  unfolding remember_channel
  remember-calls env key provider user channel = Keeps-bind _ _ (Keeps-cached key channel) λ x.
      Keeps-catch _ _ (Keeps-effect (persist provider user channel) env.remember_channel refl)
        λ e. Keeps-pure tt

  create-calls :
      (env : Env) (key user provider : Text)
      → Keeps calls (create_channel env key user provider (some b))
  unfolding create_channel
  create-calls env key user provider =
      Keeps-bind _ _ (Keeps-effect (dm b user) env.get_or_create_dm_channel other) λ channel.
        Keeps-if (is_empty channel) (Keeps-pure [])
          (Keeps-bind _ _ (remember-calls env key provider user channel) λ x. Keeps-pure channel)

  created-calls :
      (env : Env) (key user : Text) (o : Option ℕ)
      → o ≡ some b
      → Keeps calls (create_channel env key user default_provider o)
  created-calls env key user o h = rw h (create-calls env key user default_provider)

  or_create-calls :
      (env : Env) (key user channel : Text)
      → get_adapter env default_provider ≡ some b
      → Keeps calls (or_create env key user default_provider channel)
  or_create-calls env key user channel h =
      Keeps-if (is_empty channel) (created-calls env key user (get_adapter env default_provider) h)
        (Keeps-bind _ _ (Keeps-cached key channel) λ x. Keeps-pure channel)

  get_or_create-calls :
      (env : Env) (key user : Text)
      → get_adapter env default_provider ≡ some b
      → Keeps calls (get_or_create_channel env key user default_provider)
  unfolding get_or_create_channel
  get_or_create-calls env key user h =
      Keeps-bind _ _ (Keeps-gets λ w. or_empty (get w.user_channels key)) λ cached.
        Keeps-if (is_empty cached)
          (Keeps-bind _ _
            (Keeps-catch _ _ (Keeps-effect (recall default_provider user) env.get_channel refl)
              λ e. Keeps-pure none)
            λ known. or_create-calls env key user (or_empty known) h)
          (created-calls env key user (get_adapter env default_provider) h)

  deliver-calls :
      (env : Env) (channel text : Text) → Keeps calls (deliver_proactive env channel text b)
  deliver-calls env channel text = Keeps-if (is_empty channel) (Keeps-pure tt) (
      Keeps-if (is_empty text) (Keeps-pure tt) (
        Keeps-catch _ _
          (Keeps-bind _ _ (Keeps-effect (reply b channel text []) env.send_reply other)
            λ x. Keeps-pure tt)
          λ e. Keeps-pure tt))

proactive_by-calls :
    (a : ℕ) (env : Env) (key text : Text) (o : Option ℕ)
    → get_adapter env default_provider ≡ o
    → o ≢ some a
    → (w : World)
    → calls_of a (proactive_by env key text default_provider o w).1.log ≡ calls_of a w.log
proactive_by-calls a env key text none h n w = refl
proactive_by-calls a env key text (some b) h n w =
    let other = differs a b n in
    (Keeps-bind _ _
        (get_or_create-calls a b other env key (provider_user_id key default_provider) h)
        λ channel. deliver-calls a b other env channel text).run
      w
  where
    differs : (a b : ℕ) → some b ≢ some a → nat_eq b a ≡ false
    differs a b n = elim (Bool-cases (nat_eq b a)) [
      | inl e ↦ elim (n (ap some ((nat_eq_iff b a).0 e))) [ ]
      | inr e ↦ e
    ]

-- A proactive message of a connection calls no adapter but the one that the provider "mattermost"
-- gives: for every other adapter, the calls it has got are as many as before, whatever platform the
-- connection's user belongs to.
pub on_proactive-calls :
    (env : Env) (user text : Text) (a : ℕ)
    → get_adapter env default_provider ≢ some a
    → (w : World) → calls_of a (on_proactive env user text w).1.log ≡ calls_of a w.log
unfolding on_proactive handle_proactive
on_proactive-calls env user text a n w =
    proactive_by-calls a env (normalize_identity_key default_provider user) text
      (get_adapter env default_provider) refl n w
