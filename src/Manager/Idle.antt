-- ===== src/Manager/Idle.antt =====
-- The periodic cleanup.
use claw_mux.Base.{
  ℕ, ◌-◌, Bool, false, Option, none, some, List, ltb, ◌==◌, text_key, nat_key, Text, any,
}
use claw_mux.Base.Dict.{Dict}
use claw_mux.Manager.{Manager}

abbrev pub listed : Text → List Text → Bool
listed u users = any (λ v. v == u) users

-- A user whose last message is older than the timeout.
abbrev pub is_idle : ℕ → ℕ → Option ℕ → Bool
is_idle timeout now none = false
is_idle timeout now (some last) = ltb timeout (now - last)
