-- ===== src/Router/Keeps.antt =====
-- What an action of the router leaves as it was, by the actions it is made of.
use claw_mux.Base.{
  ℕ, ◌≡◌, refl, ◌∙◌, Bool, true, false, List, ◌∷◌, if◌then◌else◌, Text, Result, ok, err,
}
use claw_mux.Base.Exec.{pure, raise, gets, catch, recover, proceed, ◌>>=◌}
use claw_mux.Router.World.{
  Effect, typing_on, typing_off, ask, observe, World, Run, call, try_call, note,
}

-- `f` is the same after `m` as before, whether it returns or raises.
pub record Keeps {A B : Type 0} (f : World → B) (m : Run A) : Type 0 where
  pub run : (w : World) → f (m w).1 ≡ f w

abbrev pub log_effect : Effect → World → World
log_effect e w = record w { log = e ∷ w.log }

-- Neither a typing task nor a request to OpenClaw.
abbrev pub is_plain : Effect → Bool
is_plain (typing_on a c r) = false
is_plain typing_off = false
is_plain (ask u i m s p) = false
is_plain e = true

module _ {B : Type 0} {f : World → B} where
  pub Keeps-pure : {A : Type 0} (a : A) → Keeps f (pure a)
  Keeps-pure a = record { run = λ w. refl }

  pub Keeps-raise : {A : Type 0} (e : Text) → Keeps {A = A} f (raise e)
  Keeps-raise e = record { run = λ w. refl }

  pub Keeps-gets : {A : Type 0} (g : World → A) → Keeps f (gets g)
  Keeps-gets g = record { run = λ w. refl }

  pub Keeps-if :
      {A : Type 0} (b : Bool) {m n : Run A} → Keeps f m → Keeps f n → Keeps f (if b then m else n)
  Keeps-if true h k = h
  Keeps-if false h k = k

  pub Keeps-bind :
      {A C : Type 0} (m : Run A) (n : A → Run C)
      → Keeps f m
      → ((a : A) → Keeps f (n a))
      → Keeps f (m >>= n)
  Keeps-bind {A} m n h k = record { run = λ w. let (r, w') = m w in go r w' ∙ h.run w }
    where
      go : (r : Result Text A) (w : World) → f (proceed r n w).1 ≡ f w
      go (ok a) w = (k a).run w
      go (err e) w = refl

  pub Keeps-catch :
      {A : Type 0} (m : Run A) (n : Text → Run A)
      → Keeps f m
      → ((e : Text) → Keeps f (n e))
      → Keeps f (catch m n)
  Keeps-catch {A} m n h k = record { run = λ w. let (r, w') = m w in go r w' ∙ h.run w }
    where
      go : (r : Result Text A) (w : World) → f (recover r n w).1 ≡ f w
      go (ok a) w = refl
      go (err e) w = (k e).run w

-- What the pieces of the handler have to leave alone: the plain effects, and a typing task from its
-- start to its end.
pub record Measure {B : Type 0} (f : World → B) : Type 0 where
  pub plain : (e : Effect) (w : World) → is_plain e ≡ true → f (log_effect e w) ≡ f w
  pub typing :
      (a : ℕ) (c r : Text) (w : World) (m : Run Unit)
      → Keeps f m
      → f (log_effect observe (log_effect typing_off (m (log_effect (typing_on a c r) w)).1)) ≡ f w

module _ {B : Type 0} {f : World → B} (μ : Measure f) where
  pub Keeps-try :
      {A : Type 0} (e : Effect) (g : List Effect → Result Text A)
      → is_plain e ≡ true
      → Keeps f (try_call e g)
  Keeps-try e g h = record { run = λ w. μ.plain e w h }

  pub Keeps-call :
      {A : Type 0} (e : Effect) (g : List Effect → A) → is_plain e ≡ true → Keeps f (call e g)
  Keeps-call e g h = record { run = λ w. μ.plain e w h }

  pub Keeps-note : (e : Effect) → is_plain e ≡ true → Keeps f (note e)
  Keeps-note e h = record { run = λ w. μ.plain e w h }
