-- ===== src/Router/Delivery.antt =====
-- The typing tasks and the requests of an incoming message.
use claw_mux.Base.{
  ℕ, suc, ◌-◌, ◌≡◌, refl, ap, ◌∙◌, true, false, Option, none, some, List, [], ◌∷◌, text_key, arith,
  if◌then◌else◌, Text, Option-cases, inl, inr, Result, ok, err,
}
use claw_mux.Base.Dict.{Dict, put}
use claw_mux.Base.Exec.{pure, proceed, ◌>>=◌, ◌>>◌}
use claw_mux.Instance.{InstanceInfo}
use claw_mux.Router.World.{
  Effect, try_call, lookup, typing_on, typing_off, ask, persist, Env, World, not_mapped,
  ChannelEvent, Run, get_adapter, identity_key,
}
use claw_mux.Router.Channels.{remember_channel, cache_channel}
use claw_mux.Router.Event.{
  handle_event, handle_by, resolve, unmapped, handle_dify_fallback, say, unassigned, route_opt,
}
use claw_mux.Router.Keeps.{
  Keeps, Keeps-pure, Keeps-bind, Keeps-catch, Keeps-try, Measure, log_effect, is_plain,
}
use claw_mux.Router.Handler.{resolve-Keeps, route_opt-Keeps}

-- ── Typing ──

-- The typing tasks that run.
abbrev pub typing_tasks : List Effect → ℕ
typing_tasks [] = 0
typing_tasks (typing_on a c r ∷ log) = suc (typing_tasks log)
typing_tasks (typing_off ∷ log) = typing_tasks log - 1
typing_tasks (e ∷ log) = typing_tasks log

abbrev tasks_of : World → ℕ
tasks_of w = typing_tasks w.log

tasks-Measure : Measure tasks_of
tasks-Measure = record {
  plain = λ e w h. go e w h;
  typing = λ a c r w m h. ap (λ n. n - 1) (h.run (log_effect (typing_on a c r) w)) ∙ omega arith;
}
  where
    go : (e : Effect) (w : World) → is_plain e ≡ true → tasks_of (log_effect e w) ≡ tasks_of w
    go (typing_on a c r) w h = cc
    go typing_off w h = cc
    go e w h = refl

remember-Keeps :
    {B : Type 0} {f : World → B} (μ : Measure f)
    → ((w : World) (d : Dict Text Text) → f (record w { user_channels = d }) ≡ f w)
    → (env : Env) (key provider user channel : Text)
    → Keeps f (remember_channel env key provider user channel)
unfolding remember_channel
remember-Keeps μ free env key provider user channel =
    Keeps-bind (cache_channel key channel) _
      (record { run = λ w. free w (put w.user_channels key channel) })
      λ x.
        Keeps-catch (try_call (persist provider user channel) env.remember_channel) _
          (Keeps-try μ (persist provider user channel) env.remember_channel refl) λ e. Keeps-pure tt

handle_by-Keeps : (env : Env) (ev : ChannelEvent) (a : ℕ) → Keeps tasks_of (handle_by env ev a)
unfolding handle_by
handle_by-Keeps env ev a =
    Keeps-bind _ _ (remember-Keeps tasks-Measure (λ w d. refl) env _ _ _ _) λ x.
      Keeps-bind _ _ (resolve-Keeps tasks-Measure env ev a)
        (route_opt-Keeps tasks-Measure env ev a λ u i m s p w. refl)

-- However an event ends, with an answer, an error message or an exception, no typing task is left
-- running that did not run before it.
pub handle_event_typing :
    (env : Env) (ev : ChannelEvent) (w : World)
    → typing_tasks (handle_event env ev w).1.log ≡ typing_tasks w.log
unfolding handle_event
handle_event_typing env ev w = elim (Option-cases (get_adapter env ev.provider)) [
  | inl e ↦ rw e refl
  | inr (a, e) ↦ rw e ((handle_by-Keeps env ev a).run w)
]

-- ── Requests ──

abbrev pub requests : List Effect → ℕ
requests [] = 0
requests (ask u i m s p ∷ log) = suc (requests log)
requests (e ∷ log) = requests log

requests-Measure : Measure (λ w. requests w.log)
requests-Measure = record {
  plain = λ e w h. go e w h;
  typing = λ a c r w m h. h.run (log_effect (typing_on a c r) w);
}
  where
    go :
        (e : Effect) (w : World)
        → is_plain e ≡ true
        → requests (log_effect e w).log ≡ requests w.log
    go (ask u i m s p) w h = cc
    go e w h = refl

-- No instance was found.
abbrev NoInfo : Result Text (Option InstanceInfo) → Type 0
NoInfo (ok none) = Unit
NoInfo (ok (some i)) = ⊥
NoInfo (err e) = Unit

then-none : (m : Run Unit) (w : World) → NoInfo ((m >> pure none) w).0
then-none m w = let (r, w') = m w in go r w'
  where
    go : (r : Result Text (Unit {0})) (w : World) → NoInfo (proceed r (λ x. pure none) w).0
    go (ok x) w = tt
    go (err e) w = tt

unmapped-none :
    (env : Env) (ev : ChannelEvent) (a : ℕ) (w : World)
    → env.enable_auto_provisioning ≡ false
    → NoInfo (unmapped env ev a w).0
unfolding unmapped
unmapped-none env ev a w h = rw h (
    then-none
      (if env.has_dify then handle_dify_fallback env ev a else say env ev a (unassigned env ev a))
      _)

resolve-none :
    (env : Env) (ev : ChannelEvent) (a : ℕ) (w : World)
    → env.get_cached_info (identity_key ev.provider ev.user_id) w.log ≡ none
    → ((t : List Effect) → env.get_instance_by_identity t ≡ not_mapped)
    → env.enable_auto_provisioning ≡ false
    → NoInfo (resolve env ev a w).0
unfolding resolve
resolve-none env ev a w h k n =
    rw (h, k (lookup ev.provider ev.user_id ∷ w.log)) (unmapped-none env ev a _ n)

-- An event of a user who has no instance sends nothing to OpenClaw, where there is no automatic
-- provisioning: whichever fallback answers it.
pub handle_event_unmapped :
    (env : Env) (ev : ChannelEvent) (w : World)
    → ((t : List Effect) → env.get_cached_info (identity_key ev.provider ev.user_id) t ≡ none)
    → ((t : List Effect) → env.get_instance_by_identity t ≡ not_mapped)
    → env.enable_auto_provisioning ≡ false
    → requests (handle_event env ev w).1.log ≡ requests w.log
unfolding handle_event handle_by
handle_event_unmapped env ev w h k n = elim (Option-cases (get_adapter env ev.provider)) [
  | inl e ↦ rw e refl
  | inr (a, e) ↦ rw e (handled a)
]
  where
    resolved :
        (a : ℕ) (w : World) (r : Result Text (Option InstanceInfo)) (w' : World)
        → NoInfo r
        → requests w'.log ≡ requests w.log
        → requests (proceed r (route_opt env ev a) w').1.log ≡ requests w.log
    resolved a w (ok none) w' i q = q
    resolved a w (ok (some x)) w' i q = absurd i
    resolved a w (err x) w' i q = q

    after :
        (a : ℕ) (r : Result Text (Unit {0})) (w : World)
        → requests (proceed r (λ x. resolve env ev a >>= route_opt env ev a) w).1.log
          ≡ requests w.log
    after a (ok x) w =
        let (r, w') = resolve env ev a w in
        resolved a w r w' (resolve-none env ev a w (h w.log) k n)
          ((resolve-Keeps requests-Measure env ev a).run w)
    after a (err x) w = refl

    handled : (a : ℕ) → requests (handle_by env ev a w).1.log ≡ requests w.log
    handled a =
        let m =
          remember_channel env (identity_key ev.provider ev.user_id) ev.provider ev.user_id
            ev.channel_id in
        after a (m w).0 (m w).1
        ∙ (remember-Keeps requests-Measure (λ w d. refl) env (identity_key ev.provider ev.user_id)
              ev.provider ev.user_id ev.channel_id).run
            w
