-- ===== src/Base/Exec.antt =====
-- Python code that changes a state and may raise. What was done before a raise stays done.

use claw_mux.Base.Outcome.{Result, ok, err}

abbrev pub Exec {ℓ} : Type ℓ → Type ℓ → Type ℓ → Type ℓ
Exec S E A = S → Result E A × S

module _ {ℓ} {S E A : Type ℓ} where
  abbrev pub pure : A → Exec S E A
  pure a s = (ok a, s)

  abbrev pub raise : E → Exec S E A
  raise e s = (err e, s)

  abbrev pub gets : (S → A) → Exec S E A
  gets f s = (ok (f s), s)

  abbrev pub recover : Result E A → (E → Exec S E A) → S → Result E A × S
  recover (ok a) h s = (ok a, s)
  recover (err e) h s = h e s

  -- try: m; except: h
  abbrev pub catch : Exec S E A → (E → Exec S E A) → Exec S E A
  catch m h s = let (r, s') = m s in recover r h s'

  -- try: m; finally: f
  abbrev pub finally : Exec S E A → (S → S) → Exec S E A
  finally m f s = let (r, s') = m s in (r, f s')

abbrev pub modify : {S E : Type 0} → (S → S) → Exec S E Unit
modify f s = (ok tt, f s)

module _ {ℓ} {S E A B : Type ℓ} where
  abbrev pub proceed : Result E A → (A → Exec S E B) → S → Result E B × S
  proceed (ok a) f s = f a s
  proceed (err e) f s = (err e, s)

  infixl 5 ◌>>=◌ ◌>>◌
  abbrev pub ◌>>=◌ : Exec S E A → (A → Exec S E B) → Exec S E B
  ◌>>=◌ m f s = let (r, s') = m s in proceed r f s'

  abbrev pub ◌>>◌ : Exec S E A → Exec S E B → Exec S E B
  m >> n = m >>= λ _. n
