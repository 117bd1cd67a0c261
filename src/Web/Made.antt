-- ===== src/Web/Made.antt =====
-- What holds of the event that a chain of readings makes.
use claw_mux.Base.{Option, none, some}
use claw_mux.Web.Json.{◌>>=◌}

-- Of an event there is, if no reading raises.
abbrev pub IfMade : {E : Type 0} → (E → Type 0) → Option (Option E) → Type 0
IfMade P none = Unit
IfMade P (some none) = Unit
IfMade P (some (some e)) = P e

pub bind-IfMade :
    {A E : Type 0} (P : E → Type 0) (m : Option A) (f : A → Option (Option E))
    → ((a : A) → IfMade P (f a))
    → IfMade P (m >>= f)
bind-IfMade P none f h = tt
bind-IfMade P (some a) f h = h a
