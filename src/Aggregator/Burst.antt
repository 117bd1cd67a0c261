-- ===== src/Aggregator/Burst.antt =====
-- A burst of final events for one message id.
use claw_mux.Base.{
  ℕ, ◌≡◌, refl, ◌∙◌, ap, true, Option, none, some, List, [], ◌∷◌, ◌++◌, arith, append_assoc,
  append-nil, sym, some-inj, text_key, nat_key, Text, list_eq_iff, All, if◌then◌else◌,
}
use claw_mux.Base.Dict.{get, get-put, get-pop_self}
use claw_mux.Aggregator.{
  ClawMessage, ClawAggregator, is_final, add_event, fire, finalize, select_best, or_empty,
}
use claw_mux.Aggregator.Timers.{Inv, add_event-Inv, buffers-add, fire_live}

unfoldable pub add_events : ClawAggregator → List ClawMessage → ClawAggregator
add_events a [] = a
add_events a (m ∷ ms) = add_events (add_event a m) ms

-- Final events for the message id `k`.
abbrev pub Finals : Text → List ClawMessage → Type 0
Finals k = All (λ m. (is_final m ≡ true) × (m.msg_id ≡ k))

add_events-Inv : (a : ClawAggregator) (ms : List ClawMessage) → Inv a → Inv (add_events a ms)
unfolding add_events
add_events-Inv a [] v = v
add_events-Inv a (m ∷ ms) v = add_events-Inv (add_event a m) ms (add_event-Inv a m v)

on_final-add : (a : ClawAggregator) (m : ClawMessage) → (add_event a m).on_final ≡ a.on_final
unfolding add_event
on_final-add a m = ground arith

on_final-add_events :
    (a : ClawAggregator) (ms : List ClawMessage) → (add_events a ms).on_final ≡ a.on_final
unfolding add_events
on_final-add_events a [] = refl
on_final-add_events a (m ∷ ms) = on_final-add_events (add_event a m) ms ∙ on_final-add a m

module _ (k : Text) where
  buffered :
      (a : ClawAggregator) (m : ClawMessage)
      → Inv a
      → is_final m ≡ true
      → m.msg_id ≡ k
      → or_empty (get (add_event a m).buffers k) ≡ or_empty (get a.buffers k) ++ m ∷ []
  buffered a m v f e = rw (buffers-add a m v k f) (ground (arith, list_eq_iff m.msg_id k))

  all_buffered :
      (a : ClawAggregator) (ms : List ClawMessage)
      → Inv a
      → Finals k ms
      → or_empty (get (add_events a ms).buffers k) ≡ or_empty (get a.buffers k) ++ ms
  unfolding add_events
  all_buffered a [] v h = sym (append-nil _)
  all_buffered a (m ∷ ms) v h =
      all_buffered (add_event a m) ms (add_event-Inv a m v) h.1
      ∙ ap (λ (l : List ClawMessage). l ++ ms) (buffered a m v h.0.0 h.0.1)
      ∙ append_assoc (or_empty (get a.buffers k)) (m ∷ []) ms

  -- Each event of the burst leaves a task behind, and later ones replace it.
  tasked :
      (a : ClawAggregator) (m : ClawMessage)
      → is_final m ≡ true
      → m.msg_id ≡ k
      → get (add_event a m).tasks k ≡ some a.next_task
  unfolding add_event
  tasked a m f e = ground (arith, get-put a.tasks m.msg_id k a.next_task, list_eq_iff m.msg_id k)

  all_tasked :
      (a : ClawAggregator) (m : ClawMessage) (ms : List ClawMessage)
      → Finals k (m ∷ ms)
      → (t : ℕ) × (get (add_events a (m ∷ ms)).tasks k ≡ some t)
  unfolding add_events
  all_tasked a m [] h = (a.next_task, tasked a m h.0.0 h.0.1)
  all_tasked a m (n ∷ ms) h = all_tasked (add_event a m) n ms h.1

-- After final events for one message id that had none waiting, exactly one timer sleeps for that
-- id. When it ends, the callback gets what `_select_best` picks among all of the burst, and
-- nothing waits for that id any more.
pub burst_delivers :
    (min_len : ℕ) (a : ClawAggregator) (k : Text) (m : ClawMessage) (ms : List ClawMessage)
    → Inv a
    → get a.buffers k ≡ none
    → Finals k (m ∷ ms)
    → let b = add_events a (m ∷ ms) in
      (t : ℕ) × (get b.timers t ≡ some k)
      × ((u : ℕ) → get b.timers u ≡ some k → u ≡ t)
      × ((fire min_len b t).1 ≡ (if a.on_final then select_best min_len (m ∷ ms) else none))
      × (get (fire min_len b t).0.buffers k ≡ none)
      × (get (fire min_len b t).0.tasks k ≡ none)
unfolding finalize
burst_delivers min_len a k m ms v idle h =
    let b = add_events a (m ∷ ms) in
    let w : Inv b = add_events-Inv a (m ∷ ms) v in
    let (t, e) = all_tasked k a m ms h in
    let s = w.task_sleeps k t e in
    let held : or_empty (get b.buffers k) ≡ m ∷ ms =
      all_buffered k a (m ∷ ms) v h
      ∙ ap (λ (o : Option (List ClawMessage)). or_empty o ++ m ∷ ms) idle in
    (
      t,
      s,
      λ u q. some-inj (sym (w.timer_owned u k q) ∙ e),
      rw (fire_live min_len b t k s, held, on_final-add_events a (m ∷ ms)),
      rw (fire_live min_len b t k s) (get-pop_self b.buffers k),
      rw (fire_live min_len b t k s) (get-pop_self b.tasks k),
    )
