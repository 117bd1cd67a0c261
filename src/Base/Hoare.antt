-- ===== src/Base/Hoare.antt =====
-- What holds after an action, whether it returns or raises.
use mathlib.Core.Path.{◌≡◌, refl}
use mathlib.Core.Bool.{Bool, true, false}
use claw_mux.Base.Outcome.{Result, ok, err}
use claw_mux.Base.Tests.{if◌then◌else◌}
use claw_mux.Base.Exec.{Exec, pure, raise, catch, recover, proceed, ◌>>=◌, modify}

abbrev pub Post : {S E A : Type 0} → (A → S → Type 0) → (E → S → Type 0) → Result E A × S → Type 0
Post Q R (ok a, s) = Q a s
Post Q R (err e, s) = R e s

-- From a state in `P`, `m` returns into `Q` or raises into `R`.
pub record Triple {S E A : Type 0} (P : S → Type 0) (m : Exec S E A) (Q : A → S → Type 0)
    (R : E → S → Type 0) : Type 0 where
  pub run : (s : S) → P s → Post Q R (m s)

module _ {S E A : Type 0} {P : S → Type 0} where
  pub Triple-pure :
      {Q : A → S → Type 0} {R : E → S → Type 0} (a : A)
      → ((s : S) → P s → Q a s)
      → Triple P (pure a) Q R
  Triple-pure a h = record { run = h }

  pub Triple-raise :
      {Q : A → S → Type 0} {R : E → S → Type 0} (e : E)
      → ((s : S) → P s → R e s)
      → Triple P (raise e) Q R
  Triple-raise e h = record { run = h }

  pub Triple-if :
      {Q : A → S → Type 0} {R : E → S → Type 0} (b : Bool) {m n : Exec S E A}
      → (b ≡ true → Triple P m Q R)
      → (b ≡ false → Triple P n Q R)
      → Triple P (if b then m else n) Q R
  Triple-if true h k = h refl
  Triple-if false h k = k refl

pub Triple-modify :
    {S E : Type 0} {P : S → Type 0} {Q : Unit {0} → S → Type 0} {R : E → S → Type 0} (f : S → S)
    → ((s : S) → P s → Q tt (f s))
    → Triple P (modify f) Q R
Triple-modify f h = record { run = h }

module _ {S E A B : Type 0} {P : S → Type 0} {Q : A → S → Type 0} {T : B → S → Type 0}
    {R : E → S → Type 0} (m : Exec S E A) (f : A → Exec S E B) where
  pub Triple-bind : Triple P m Q R → ((a : A) → Triple (Q a) (f a) T R) → Triple P (m >>= f) T R
  Triple-bind tm tf = record { run = λ s h. let (r, s') = m s in go r s' (tm.run s h) }
    where
      go : (r : Result E A) (s : S) → Post Q R (r, s) → Post T R (proceed r f s)
      go (ok a) s h = (tf a).run s h
      go (err e) s h = h

module _ {S E A : Type 0} {P : S → Type 0} {Q : A → S → Type 0} {R T : E → S → Type 0}
    (m : Exec S E A) (h : E → Exec S E A) where
  pub Triple-catch : Triple P m Q R → ((e : E) → Triple (R e) (h e) Q T) → Triple P (catch m h) Q T
  Triple-catch tm th = record { run = λ s p. let (r, s') = m s in go r s' (tm.run s p) }
    where
      go : (r : Result E A) (s : S) → Post Q R (r, s) → Post Q T (recover r h s)
      go (ok a) s k = k
      go (err e) s k = (th e).run s k

module _ {S E A : Type 0} {P : S → Type 0} {Q : A → S → Type 0} {R : E → S → Type 0}
    (m : Exec S E A) where
  -- A fact that does not speak of the state.
  pub Triple-given : {F : Type 0} → (F → Triple P m Q R) → Triple (λ s. F × P s) m Q R
  Triple-given t = record { run = λ s h. (t h.0).run s h.1 }

  pub Triple-weaken :
      {T : A → S → Type 0} → ((a : A) (s : S) → Q a s → T a s) → Triple P m Q R → Triple P m T R
  Triple-weaken {T} k t = record { run = λ s h. let (r, s') = m s in go r s' (t.run s h) }
    where
      go : (r : Result E A) (s : S) → Post Q R (r, s) → Post T R (r, s)
      go (ok a) s h = k a s h
      go (err e) s h = h
