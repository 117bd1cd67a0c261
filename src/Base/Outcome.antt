-- ===== src/Base/Outcome.antt =====
-- Outcomes of code that may raise: a value, or an exception of type `E`.

pub data Result {ℓ κ} (E : Type κ) (A : Type ℓ) : Type (ℓ ⊔ κ) where
  ok : A → Result E A
  err : E → Result E A
