-- ===== src/Router/Stream.antt =====
-- The streamed updates (`StreamUpdater` of src/router.py). Times are in ticks of one clock. Drafts run
-- at the same time; those that pass the first test wait for the lock in the order they came.
use claw_mux.Base.{
  ℕ, ◌+◌, Bool, true, false, ◌||◌, List, [], ◌∷◌, ◌++◌, ltb, if◌then◌else◌, Text, strip, is_empty,
}

-- The beginning of a call of `update_reply`, with the clock's reading of its draft, and its end. A
-- platform that fails is ignored, so an end is an end.
pub data Call : Type 0 where
  begun : ℕ → Text → Call
  ended : Call

pub record StreamUpdater : Type 0 where
  pub post_id : Text
  pub interval : ℕ
  pub last_update : ℕ
  pub last_text : Text
  pub locked : Bool  -- `_lock` is held, by the draft whose call has begun
  pub waiters : List (ℕ × Text)  -- the drafts that wait for it, with their readings
  pub calls : List Call  -- the newest first

-- StreamUpdater(adapter, post_id, interval=interval)
abbrev pub updater : Text → ℕ → StreamUpdater
updater post interval = record {
  post_id = post;
  interval = interval;
  last_update = 0;
  last_text = [];
  locked = false;
  waiters = [];
  calls = [];
}

-- now - self._last_update < self.interval
abbrev pub is_early : ℕ → StreamUpdater → Bool
is_early now u = ltb now (u.last_update + u.interval)

-- With the lock held, up to the call.
abbrev pub begin_update : ℕ → Text → StreamUpdater → StreamUpdater
begin_update now text u = record u {
  last_update = now;
  last_text = text;
  locked = true;
  calls = begun now text ∷ u.calls;
}

-- `on_stream`, up to the call or the wait for the lock.
unfoldable pub on_stream : ℕ → Text → StreamUpdater → StreamUpdater
on_stream now text u =
    if is_empty u.post_id || is_empty (strip text)
    then u
    else if is_early now u
    then record u { last_text = text }
    else if u.locked
    then record u { waiters = u.waiters ++ (now, text) ∷ [] }
    else begin_update now text u

-- The lock is free: it goes to the waiters in turn, until one of them is not early by then. Their
-- readings are from before the wait.
unfoldable pub release : List (ℕ × Text) → StreamUpdater → StreamUpdater
release [] u = record u { locked = false; waiters = [] }
release ((now, text) ∷ ws) u =
    let rest = release ws (record u { last_text = text }) in
    if is_early now u then rest else begin_update now text (record u { waiters = ws })

-- The call ends, if there is one.
unfoldable pub end_update : StreamUpdater → StreamUpdater
unfolding release
end_update u = if u.locked then release u.waiters (record u { calls = ended ∷ u.calls }) else u

pub data Action : Type 0 where
  draft : ℕ → Text → Action
  call_ends : Action

unfoldable pub run : List Action → StreamUpdater → StreamUpdater
unfolding on_stream end_update
run [] u = u
run (draft now text ∷ as_) u = run as_ (on_stream now text u)
run (call_ends ∷ as_) u = run as_ (end_update u)
