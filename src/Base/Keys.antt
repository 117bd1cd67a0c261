-- ===== src/Base/Keys.antt =====
-- Keys that can be compared.
use Prim.Native.Nat.{ℕ}
use mathlib.Core.Path.{◌≡◌, refl}
use mathlib.Core.Logic.{◌↔◌}
use mathlib.Core.Bool.{Bool, true, false, ◌&&◌}
use mathlib.Core.List.{List, [], ◌∷◌}
use native.Mathlib.Omega.{arith}
use claw_mux.Base.Tests.{nat_eq, nat_eq_iff}

-- A test of equality that is exact.
pub record Key {ℓ} (K : Type ℓ) : Type ℓ where
  pub equal : K → K → Bool
  pub equal_iff : (j k : K) → (equal j k ≡ true) ↔ (j ≡ k)

infix 50 ◌==◌
abbrev pub ◌==◌ {ℓ} : {K : Type ℓ} ⦃key : Key K⦄ → K → K → Bool
◌==◌ ⦃key⦄ = key.equal

unfoldable pub list_eq : List ℕ → List ℕ → Bool
list_eq [] [] = true
list_eq (a ∷ as_) (b ∷ bs) = nat_eq a b && list_eq as_ bs
list_eq _ _ = false

pub list_eq_iff : (a b : List ℕ) → (list_eq a b ≡ true) ↔ (a ≡ b)
unfolding list_eq
list_eq_iff [] [] = (λ _. refl, λ _. refl)
list_eq_iff [] (b ∷ bs) = (λ h. cc, λ h. cc)
list_eq_iff (a ∷ as_) [] = (λ h. cc, λ h. cc)
list_eq_iff (a ∷ as_) (b ∷ bs) = ground (arith, list_eq_iff as_ bs)

pub list_eq_refl : (a : List ℕ) → list_eq a a ≡ true
list_eq_refl a = (list_eq_iff a a).1 refl

abbrev pub pair_eq : List ℕ × List ℕ → List ℕ × List ℕ → Bool
pair_eq (a, b) (c, d) = list_eq a c && list_eq b d

pub pair_eq_iff : (p q : List ℕ × List ℕ) → (pair_eq p q ≡ true) ↔ (p ≡ q)
pair_eq_iff (a, b) (c, d) = ground (arith, list_eq_iff a c, list_eq_iff b d)

instance abbrev pub text_key : Key (List ℕ)
text_key = record { equal = list_eq; equal_iff = list_eq_iff }

instance abbrev pub pair_key : Key (List ℕ × List ℕ)
pair_key = record { equal = pair_eq; equal_iff = pair_eq_iff }

instance abbrev pub nat_key : Key ℕ
nat_key = record { equal = nat_eq; equal_iff = nat_eq_iff }

pub eq_true : (a b : List ℕ) → a ≡ b → list_eq a b ≡ true
eq_true a b e = (list_eq_iff a b).1 e
