-- ===== src/Manager/Locks.antt =====
-- The per-user lock of the manager (`_locks`, `_get_lock`), for the operations of one user that run
-- at the same time: `get_or_create`, a guardian's reconnect and `close_connection`. An operation
-- gets the lock object, waits for it, is inside the `async with`, and leaves it.
use claw_mux.Base.{ℕ, suc, Bool, Option, none, some, List, [], ◌∷◌, nat_eq, if◌then◌else◌}

-- Where an operation stands, with its lock object. True is `close_connection`.
pub data Phase : Type 0 where
  outside : Phase
  waiting : (lock : ℕ) → (closing : Bool) → Phase
  inside : (lock : ℕ) → (closing : Bool) → Phase

pub record Locks : Type 0 where
  pub current : Option ℕ  -- the user's entry of `_locks`
  pub next_lock : ℕ
  pub owner : ℕ → Option ℕ  -- the operation that holds a lock object
  pub phase : ℕ → Phase

abbrev pub new : Locks
new = record { current = none; next_lock = 0; owner = λ l. none; phase = λ i. outside }

abbrev pub set : {A : Type 0} → (ℕ → A) → ℕ → A → ℕ → A
set f i a j = if nat_eq i j then a else f j

abbrev pub created : Locks → Option ℕ → ℕ × Locks
created s none = (s.next_lock, record s { current = some s.next_lock; next_lock = suc s.next_lock })
created s (some l) = (l, s)

-- `_get_lock`
unfoldable pub get_lock : Locks → ℕ × Locks
get_lock s = created s s.current

abbrev pub queued : ℕ → Bool → ℕ × Locks → Locks
queued i closing (l, s) = record s { phase = set s.phase i (waiting l closing) }

abbrev pub arrive_from : Phase → ℕ → Bool → Locks → Locks
arrive_from outside i closing s = queued i closing (get_lock s)
arrive_from p i closing s = s

-- An operation begins.
unfoldable pub arrive : ℕ → Bool → Locks → Locks
unfolding get_lock
arrive i closing s = arrive_from (s.phase i) i closing s

abbrev pub taken_by : Option ℕ → ℕ → ℕ → Bool → Locks → Locks
taken_by none i l closing s = record s {
  owner = set s.owner l (some i);
  phase = set s.phase i (inside l closing);
}
taken_by (some j) i l closing s = s

abbrev pub enter_from : Phase → ℕ → Locks → Locks
enter_from (waiting l closing) i s = taken_by (s.owner l) i l closing s
enter_from p i s = s

-- It gets its lock object, if that one is free.
unfoldable pub enter : ℕ → Locks → Locks
enter i s = enter_from (s.phase i) i s

abbrev pub leave_from : Phase → ℕ → Locks → Locks
leave_from (inside l closing) i s = record s {
  current = if closing then none else s.current;
  owner = set s.owner l none;
  phase = set s.phase i outside;
}
leave_from p i s = s

-- It releases it; `close_connection` has popped the user's entry before.
unfoldable pub leave : ℕ → Locks → Locks
leave i s = leave_from (s.phase i) i s

pub data Move : Type 0 where
  arrives : ℕ → Bool → Move
  enters leaves : ℕ → Move

unfoldable pub move : Move → Locks → Locks
unfolding arrive enter leave
move (arrives i closing) s = arrive i closing s
move (enters i) s = enter i s
move (leaves i) s = leave i s

unfoldable pub moves : List Move → Locks → Locks
unfolding move
moves [] s = s
moves (m ∷ ms) s = moves ms (move m s)
