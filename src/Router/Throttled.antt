-- ===== src/Router/Throttled.antt =====
-- When the streamed updates call the platform.
use claw_mux.Base.{
  ℕ, ◌+◌, ◌≤◌, ◌≡◌, refl, Bool, true, false, ◌||◌, List, [], ◌∷◌, ◌++◌, Text, strip, is_empty,
  arith, if-both, if-cases,
}
use claw_mux.Router.Stream.{
  Call, begun, ended, StreamUpdater, updater, is_early, begin_update, on_stream, release,
  end_update, Action, draft, call_ends, run,
}

-- The readings of the drafts that were shown, the newest first.
abbrev pub readings : List Call → List ℕ
readings [] = []
readings (begun t x ∷ calls) = t ∷ readings calls
readings (ended ∷ calls) = readings calls

-- Each reading is at least an interval after the one before it.
abbrev pub Spaced : ℕ → List ℕ → Type 0
Spaced i [] = Unit
Spaced i (t ∷ []) = i ≤ t
Spaced i (t ∷ s ∷ ts) = (s + i ≤ t) × Spaced i (s ∷ ts)

-- Calls begin and end in turn; true is a call that has not ended.
abbrev pub InTurn : Bool → List Call → Type 0
InTurn false [] = Unit
InTurn true [] = ⊥
InTurn true (begun t x ∷ calls) = InTurn false calls
InTurn false (begun t x ∷ calls) = ⊥
InTurn false (ended ∷ calls) = InTurn true calls
InTurn true (ended ∷ calls) = ⊥

abbrev Latest : ℕ → List ℕ → Type 0
Latest n [] = n ≡ 0
Latest n (t ∷ ts) = n ≡ t

-- Behind a lock that is in the state `held`.
record Paced (i : ℕ) (held : Bool) (u : StreamUpdater) : Type 0 where
  same : u.interval ≡ i
  latest : Latest u.last_update (readings u.calls)
  spaced : Spaced i (readings u.calls)
  in_turn : InTurn held u.calls

record Inv (i : ℕ) (u : StreamUpdater) : Type 0 where
  paced : Paced i u.locked u
  served : u.locked ≡ false → u.waiters ≡ []

push-Spaced : (i n t : ℕ) (ts : List ℕ) → Latest n ts → Spaced i ts → n + i ≤ t → Spaced i (t ∷ ts)
push-Spaced i n t [] l s h = omega (arith, l, h)
push-Spaced i n t (v ∷ ts) l s h = (omega (arith, l, h), s)

begin-Inv :
    (i now : ℕ) (text : Text) (u : StreamUpdater)
    → Paced i false u
    → is_early now u ≡ false
    → Inv i (begin_update now text u)
begin-Inv i now text u v e = record {
  paced = record {
    same = v.same;
    latest = refl;
    spaced =
        push-Spaced i u.last_update now (readings u.calls) v.latest v.spaced
          (ground (arith, v.same, e));
    in_turn = v.in_turn;
  };
  served = λ h. cc;
}

with_lock : (i : ℕ) (u : StreamUpdater) (b : Bool) → Paced i u.locked u → u.locked ≡ b → Paced i b u
with_lock i u b v l = record {
  same = v.same;
  latest = v.latest;
  spaced = v.spaced;
  in_turn = rw l at v.in_turn;
}

on_stream-Inv :
    (i now : ℕ) (text : Text) (u : StreamUpdater) → Inv i u → Inv i (on_stream now text u)
unfolding on_stream
on_stream-Inv i now text u v = if-both (Inv i) (is_empty u.post_id || is_empty (strip text)) v (
    if-cases (Inv i) (is_early now u) (λ e. texted)
      λ e.
        if-cases (Inv i) u.locked waits
          λ l. begin-Inv i now text u (with_lock i u false v.paced l) e)
  where
    texted : Inv i (record u { last_text = text })
    texted = record {
      paced = record {
        same = v.paced.same;
        latest = v.paced.latest;
        spaced = v.paced.spaced;
        in_turn = v.paced.in_turn;
      };
      served = v.served;
    }

    waits : u.locked ≡ true → Inv i (record u { waiters = u.waiters ++ (now, text) ∷ [] })
    waits l = record {
      paced = record {
        same = v.paced.same;
        latest = v.paced.latest;
        spaced = v.paced.spaced;
        in_turn = v.paced.in_turn;
      };
      served = λ h. cc (l, h);
    }

release-Inv :
    (i : ℕ) (ws : List (ℕ × Text)) (u : StreamUpdater) → Paced i false u → Inv i (release ws u)
unfolding release
release-Inv i [] u v = record {
  paced = record { same = v.same; latest = v.latest; spaced = v.spaced; in_turn = v.in_turn };
  served = λ h. refl;
}
release-Inv i ((now, text) ∷ ws) u v =
    if-cases (Inv i) (is_early now u)
      (λ e.
        release-Inv i ws (record u { last_text = text })
          record { same = v.same; latest = v.latest; spaced = v.spaced; in_turn = v.in_turn })
      λ e.
        begin-Inv i now text (record u { waiters = ws })
          record { same = v.same; latest = v.latest; spaced = v.spaced; in_turn = v.in_turn } e

end_update-Inv : (i : ℕ) (u : StreamUpdater) → Inv i u → Inv i (end_update u)
unfolding end_update
end_update-Inv i u v =
    if-cases (Inv i) u.locked
      (λ l.
        let w = with_lock i u true v.paced l in
        release-Inv i u.waiters (record u { calls = ended ∷ u.calls })
          record { same = w.same; latest = w.latest; spaced = w.spaced; in_turn = w.in_turn })
      (λ l. v)

run-Inv : (i : ℕ) (as_ : List Action) (u : StreamUpdater) → Inv i u → Inv i (run as_ u)
unfolding run
run-Inv i [] u v = v
run-Inv i (draft now text ∷ as_) u v = run-Inv i as_ _ (on_stream-Inv i now text u v)
run-Inv i (call_ends ∷ as_) u v = run-Inv i as_ _ (end_update-Inv i u v)

-- Whatever drafts arrive, at whatever readings of the clock, and whenever the platform's calls end:
-- there is one call at a time, each ending before the next begins; the drafts that are shown were
-- read an interval or more apart, in the order of the calls, however long they waited for the lock;
-- and without a call no draft waits.
pub run-Throttled :
    (post : Text) (interval : ℕ) (as_ : List Action)
    → let u = run as_ (updater post interval) in
      InTurn u.locked u.calls
      × Spaced interval (readings u.calls)
      × (u.locked ≡ false → u.waiters ≡ [])
run-Throttled post interval as_ =
    let v = run-Inv interval as_ (updater post interval) record {
      paced = record { same = refl; latest = refl; spaced = tt; in_turn = tt };
      served = λ h. refl;
    } in
    (v.paced.in_turn, v.paced.spaced, v.served)
