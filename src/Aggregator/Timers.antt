-- ===== src/Aggregator/Timers.antt =====
-- The debounce timers of the aggregator.
use mathlib.Core.Path.{subst}
use claw_mux.Base.{
  ℕ, ◌<◌, ◌≡◌, refl, inl, inr, Bool, true, false, Option, none, some, List, [], ◌∷◌, ◌++◌, arith,
  Bool-cases, Option-cases, some-inj, ◌==◌, text_key, nat_key, Text, list_eq, list_eq_iff, All,
  nat_eq_iff, All-append, if◌then◌else◌,
}
use claw_mux.Base.Dict.{Dict, get, pop, get-put, get-pop}
use claw_mux.Aggregator.{
  ClawMessage, ClawAggregator, is_final, new, add_event, fire, finalize, cancel_all, cancel_tasks,
  or_empty,
}

abbrev pub AllFinal : List ClawMessage → Type 0
AllFinal = All (λ m. is_final m ≡ true)

pub record Inv (a : ClawAggregator) : Type 0 where
  pub task_sleeps : (k : Text) (t : ℕ) → get a.tasks k ≡ some t → get a.timers t ≡ some k
  pub timer_owned : (t : ℕ) (k : Text) → get a.timers t ≡ some k → get a.tasks k ≡ some t
  pub fresh : (t : ℕ) (k : Text) → get a.timers t ≡ some k → t < a.next_task
  pub idle : (k : Text) → get a.tasks k ≡ none → get a.buffers k ≡ none
  pub finals : (k : Text) (ms : List ClawMessage) → get a.buffers k ≡ some ms → AllFinal ms

pub new-Inv : (callback : Bool) → Inv (new callback)
unfolding get
new-Inv callback = record {
  task_sleeps = λ k t h. cc;
  timer_owned = λ k t h. cc;
  fresh = λ k t h. cc;
  idle = λ k h. refl;
  finals = λ k ms h. cc;
}

add_skip : (a : ClawAggregator) (m : ClawMessage) → is_final m ≡ false → add_event a m ≡ a
unfolding add_event
add_skip a m f = rw f

fire_done :
    (min_len : ℕ) (a : ClawAggregator) (t : ℕ)
    → get a.timers t ≡ none
    → fire min_len a t ≡ (a, none)
unfolding fire
fire_done min_len a t e = rw e

pub fire_live :
    (min_len : ℕ) (a : ClawAggregator) (t : ℕ) (k : Text)
    → get a.timers t ≡ some k
    → fire min_len a t ≡ finalize min_len (record a { timers = pop a.timers t }) k
unfolding fire
fire_live min_len a t k e = rw e

module _ (a : ClawAggregator) (m : ClawMessage) (v : Inv a) where
  add-sleeps :
      (o : Option ℕ) (k : Text) (t : ℕ)
      → get a.tasks m.msg_id ≡ o
      → get (add_event a m).tasks k ≡ some t
      → get (add_event a m).timers t ≡ some k
  unfolding add_event
  add-sleeps none k t e h = ground (
    arith,
    v.task_sleeps k t,
    v.fresh t k,
    get-put a.tasks m.msg_id k a.next_task,
    list_eq_iff m.msg_id k,
    get-put a.timers a.next_task t m.msg_id,
  )
  add-sleeps (some u) k t e h = ground (
    arith,
    v.task_sleeps k t,
    v.task_sleeps m.msg_id u e,
    v.fresh t k,
    get-put a.tasks m.msg_id k a.next_task,
    list_eq_iff m.msg_id k,
    get-put (pop a.timers u) a.next_task t m.msg_id,
    get-pop a.timers u t,
  )

  add-owned :
      (o : Option ℕ) (k : Text) (t : ℕ)
      → get a.tasks m.msg_id ≡ o
      → get (add_event a m).timers t ≡ some k
      → (get (add_event a m).tasks k ≡ some t) × (t < (add_event a m).next_task)
  unfolding add_event
  add-owned none k t e h = ground (
    arith,
    v.timer_owned t k,
    v.fresh t k,
    get-put a.tasks m.msg_id k a.next_task,
    list_eq_iff m.msg_id k,
    get-put a.timers a.next_task t m.msg_id,
  )
  add-owned (some u) k t e h = ground (
    arith,
    v.timer_owned t k,
    v.task_sleeps m.msg_id u e,
    v.fresh t k,
    get-put a.tasks m.msg_id k a.next_task,
    list_eq_iff m.msg_id k,
    get-put (pop a.timers u) a.next_task t m.msg_id,
    get-pop a.timers u t,
  )

  add-idle : (k : Text) → get (add_event a m).tasks k ≡ none → get (add_event a m).buffers k ≡ none
  unfolding add_event
  add-idle k h = ground (
    arith,
    v.idle k,
    get-put a.tasks m.msg_id k a.next_task,
    get-put a.buffers m.msg_id k (or_empty (get a.buffers m.msg_id) ++ m ∷ []),
  )

  -- What a burst leaves in the buffers.
  pub buffers-add :
      (k : Text)
      → is_final m ≡ true
      → get (add_event a m).buffers k
        ≡ (if m.msg_id == k then some (or_empty (get a.buffers k) ++ m ∷ []) else get a.buffers k)
  unfolding add_event
  buffers-add k f = ground (
    arith,
    list_eq_iff m.msg_id k,
    get-put a.buffers m.msg_id k (or_empty (get a.buffers m.msg_id) ++ m ∷ []),
  )

  add-finals :
      (k : Text) (ms : List ClawMessage) → get (add_event a m).buffers k ≡ some ms → AllFinal ms
  add-finals k ms h = elim (Bool-cases (is_final m)) [
    | inr f ↦ v.finals k ms (rw (add_skip a m f) at h)
    | inl f ↦ elim (Bool-cases (list_eq m.msg_id k)) [
      | inr e ↦ v.finals k ms (rw (buffers-add k f, e) at h)
      | inl e ↦
          let g : some (or_empty (get a.buffers k) ++ m ∷ []) ≡ some ms =
            (rw (buffers-add k f, e) at h) in
          subst AllFinal (some-inj g) (
            All-append (λ x. is_final x ≡ true) (or_empty (get a.buffers k)) (m ∷ [])
              (old (get a.buffers k) refl) (f, tt))
    ]
  ]
    where
      old : (o : Option (List ClawMessage)) → get a.buffers k ≡ o → AllFinal (or_empty o)
      old none q = tt
      old (some xs) q = v.finals k xs q

  pub add_event-Inv : Inv (add_event a m)
  add_event-Inv = record {
    task_sleeps = λ k t h. add-sleeps (get a.tasks m.msg_id) k t refl h;
    timer_owned = λ t k h. (add-owned (get a.tasks m.msg_id) k t refl h).0;
    fresh = λ t k h. (add-owned (get a.tasks m.msg_id) k t refl h).1;
    idle = add-idle;
    finals = add-finals;
  }

module _ (min_len : ℕ) (a : ClawAggregator) (t : ℕ) (v : Inv a) where
  fire-Inv : Inv (fire min_len a t).0
  unfolding finalize
  fire-Inv = elim (Option-cases (get a.timers t)) [
    | inl e ↦ rw (fire_done min_len a t e) v
    | inr (k, e) ↦ rw (fire_live min_len a t k e) (record {
      task_sleeps = λ j u h. ground (
        arith,
        v.task_sleeps j u,
        v.timer_owned t k e,
        get-pop a.tasks k j,
        v.timer_owned t j,
        get-pop a.timers t u,
        list_eq_iff k j,
      );
      timer_owned = λ u j h. ground (
        arith,
        v.timer_owned u j,
        v.timer_owned t k e,
        get-pop a.tasks k j,
        v.task_sleeps k u,
        get-pop a.timers t u,
        list_eq_iff k j,
      );
      fresh = λ u j h. ground (arith, v.fresh u j, get-pop a.timers t u);
      idle = λ j h. ground (arith, v.idle j, get-pop a.tasks k j, get-pop a.buffers k j);
      finals = λ j ms h. v.finals j ms (ground (arith, get-pop a.buffers k j));
    })
  ]

cancel_tasks-gone :
    (tasks : Dict Text ℕ) (timers : Dict ℕ Text) (t : ℕ)
    → get timers t ≡ none
    → get (cancel_tasks tasks timers) t ≡ none
unfolding cancel_tasks
cancel_tasks-gone [] timers t h = h
cancel_tasks-gone ((k, u) ∷ tasks) timers t h =
    cancel_tasks-gone tasks (pop timers u) t (ground (arith, get-pop timers u t))

cancel_tasks-owned :
    (tasks : Dict Text ℕ) (timers : Dict ℕ Text) (k : Text) (t : ℕ)
    → get tasks k ≡ some t
    → get (cancel_tasks tasks timers) t ≡ none
unfolding cancel_tasks get
cancel_tasks-owned [] timers k t h = cc
cancel_tasks-owned ((j, u) ∷ tasks) timers k t h = elim (Bool-cases (list_eq j k)) [
  | inl e ↦
      cancel_tasks-gone tasks (pop timers u) t (ground (arith, get-pop timers u t, nat_eq_iff u t))
  | inr e ↦ cancel_tasks-owned tasks (pop timers u) k t (ground arith)
]

cancel_all_quiet : (a : ClawAggregator) → Inv a → (t : ℕ) → get (cancel_all a).timers t ≡ none
unfolding cancel_all
cancel_all_quiet a v t = elim (Option-cases (get a.timers t)) [
  | inl e ↦ cancel_tasks-gone a.tasks a.timers t e
  | inr (k, e) ↦ cancel_tasks-owned a.tasks a.timers k t (v.timer_owned t k e)
]

cancel_all-Inv : (a : ClawAggregator) → Inv a → Inv (cancel_all a)
unfolding get
cancel_all-Inv a v = record {
  task_sleeps = λ k t h. unfold cancel_all in cc;
  timer_owned = λ t k h. cc (cancel_all_quiet a v t);
  fresh = λ t k h. cc (cancel_all_quiet a v t);
  idle = λ k h. unfold cancel_all in refl;
  finals = λ k ms h. unfold cancel_all in cc;
}

-- What happens to an aggregator: a chat event, the end of a timer, or a shutdown.
pub data Input : Type 0 where
  event : ClawMessage → Input
  timer : ℕ → Input
  shutdown : Input

unfoldable pub after : ℕ → ClawAggregator → List Input → ClawAggregator
after min_len a [] = a
after min_len a (event m ∷ is) = after min_len (add_event a m) is
after min_len a (timer t ∷ is) = after min_len (fire min_len a t).0 is
after min_len a (shutdown ∷ is) = after min_len (cancel_all a) is

-- Whatever events, timers and shutdowns come, in any order: each message id with a task has one
-- sleeping timer and that timer alone, a buffer without a task is empty, and buffers hold only
-- final messages.
pub after-Inv :
    (min_len : ℕ) (a : ClawAggregator) (is : List Input) → Inv a → Inv (after min_len a is)
unfolding after
after-Inv min_len a [] v = v
after-Inv min_len a (event m ∷ is) v = after-Inv min_len (add_event a m) is (add_event-Inv a m v)
after-Inv min_len a (timer t ∷ is) v =
    after-Inv min_len (fire min_len a t).0 is (fire-Inv min_len a t v)
after-Inv min_len a (shutdown ∷ is) v = after-Inv min_len (cancel_all a) is (cancel_all-Inv a v)
