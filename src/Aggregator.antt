-- ===== src/Aggregator.antt =====
-- The message aggregator (src/utils/claw_aggregator.py): final chat events are buffered under their
-- message id, and a debounce timer emits the best one. A sleeping `_finalize_later` task is an
-- entry of `timers`; a task that is not there is done or cancelled.
pub mod Select
pub mod Timers
pub mod Burst
mod Examples
use claw_mux.Base.{
  ℕ, suc, ◌+◌, Bool, true, false, not, ◌&&◌, Option, none, some, List, [], ◌∷◌, ◌++◌, ltb, any,
  keep, length, is_empty, if◌then◌else◌, ◌==◌, text_key, nat_key, Text, codes, strip, lower,
}
use claw_mux.Base.Dict.{Dict, get, put, pop, has}

abbrev pub junk_exact : List Text
junk_exact =
    codes "ok" ∷ codes "ok." ∷ codes "thinking" ∷ codes "thinking..." ∷ codes "..." ∷ codes "…" ∷ []

-- settings.claw_min_valid_text_len is `min_len`
unfoldable pub is_valid_text : ℕ → Text → Bool
is_valid_text min_len text =
    let stripped = strip text in
    if is_empty text
    then false
    else if ltb (length stripped) min_len
    then false
    else if any (λ j. lower stripped == j) junk_exact
    then false
    else true

pub record ClawMessage : Type 0 where
  pub msg_id : Text
  pub seq : ℕ
  pub text : Text
  pub state : Text
  pub ts : ℕ
  pub media_paths : List Text

abbrev pub final : Text
final = codes "final"

-- m.state == "final"
unfoldable pub is_final : ClawMessage → Bool
is_final m = m.state == final

-- m.text and m.text.strip()
unfoldable pub has_words : ClawMessage → Bool
has_words m = not (is_empty m.text) && not (is_empty (strip m.text))

-- max(ms, key=seq): the first of the highest.
unfoldable pub max_from : ClawMessage → List ClawMessage → ClawMessage
max_from best [] = best
max_from best (m ∷ ms) = max_from (if ltb best.seq m.seq then m else best) ms

unfoldable pub max_seq : List ClawMessage → Option ClawMessage
unfolding max_from
max_seq [] = none
max_seq (m ∷ ms) = some (max_from m ms)

abbrev or_else : Option ClawMessage → Option ClawMessage → Option ClawMessage
or_else none y = y
or_else (some m) y = some m

unfoldable pub select_best : ℕ → List ClawMessage → Option ClawMessage
select_best min_len messages =
    let finals = keep is_final messages in
    let valid = keep (λ m. is_valid_text min_len m.text) finals in
    or_else (max_seq valid) (max_seq (keep has_words finals))

pub record ClawAggregator : Type 0 where
  pub buffers : Dict Text (List ClawMessage)
  pub tasks : Dict Text ℕ  -- msg_id → task
  pub timers : Dict ℕ Text  -- the tasks that sleep
  pub next_task : ℕ
  pub on_final : Bool  -- a callback is set

abbrev pub new : Bool → ClawAggregator
new callback = record { buffers = []; tasks = []; timers = []; next_task = 0; on_final = callback }

abbrev or_empty : Option (List ClawMessage) → List ClawMessage
or_empty none = []
or_empty (some ms) = ms

-- `if existing and not existing.done(): existing.cancel()`
abbrev pub cancel : Option ℕ → Dict ℕ Text → Dict ℕ Text
cancel none timers = timers
cancel (some t) timers = pop timers t

unfoldable pub add_event : ClawAggregator → ClawMessage → ClawAggregator
add_event a msg = if not (is_final msg) then a else record a {
  buffers = put a.buffers msg.msg_id (or_empty (get a.buffers msg.msg_id) ++ msg ∷ []);
  tasks = put a.tasks msg.msg_id a.next_task;
  timers = put (cancel (get a.tasks msg.msg_id) a.timers) a.next_task msg.msg_id;
  next_task = suc a.next_task;
}

-- The body of `_finalize_later` after its sleep; the message is what `on_final` is called with.
unfoldable pub finalize : ℕ → ClawAggregator → Text → ClawAggregator × Option ClawMessage
finalize min_len a msg_id = (
  record a { buffers = pop a.buffers msg_id; tasks = pop a.tasks msg_id },
  if a.on_final then select_best min_len (or_empty (get a.buffers msg_id)) else none,
)

abbrev wake : ℕ → ClawAggregator → ℕ → Option Text → ClawAggregator × Option ClawMessage
wake min_len a t none = (a, none)
wake min_len a t (some msg_id) = finalize min_len (record a { timers = pop a.timers t }) msg_id

-- The debounce window of task `t` ends. A cancelled task returns without effect.
unfoldable pub fire : ℕ → ClawAggregator → ℕ → ClawAggregator × Option ClawMessage
unfolding finalize
fire min_len a t = wake min_len a t (get a.timers t)

-- `for task in self._tasks.values(): task.cancel()`
unfoldable pub cancel_tasks : Dict Text ℕ → Dict ℕ Text → Dict ℕ Text
cancel_tasks [] timers = timers
cancel_tasks ((k, t) ∷ tasks) timers = cancel_tasks tasks (pop timers t)

unfoldable pub cancel_all : ClawAggregator → ClawAggregator
unfolding cancel_tasks
cancel_all a = record a { timers = cancel_tasks a.tasks a.timers; tasks = []; buffers = [] }
