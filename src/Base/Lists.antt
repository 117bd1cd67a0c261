-- ===== src/Base/Lists.antt =====
-- Lists measured by native numbers, and predicates on lists by recursion.
use Prim.Native.Nat.{ℕ, zero, suc, ◌+◌, ◌≤◌}
use mathlib.Core.Path.{◌≡◌, refl, ap, sym, ◌∙◌}
use mathlib.Core.Bool.{Bool, true, false, ◌||◌}
use mathlib.Core.List.{List, [], ◌∷◌, ◌++◌}
use mathlib.Core.List.{Memᴰ}
use mathlib.Core.Logic.{◌⊎◌, inl, inr}
use native.Mathlib.Omega.{arith}
use claw_mux.Base.Tests.{Bool-cases, if◌then◌else◌}

module _ {ℓ} {A : Type ℓ} where
  abbrev pub length : List A → ℕ
  length [] = 0
  length (x ∷ xs) = suc (length xs)

  abbrev pub take : ℕ → List A → List A
  take zero xs = []
  take (suc n) [] = []
  take (suc n) (x ∷ xs) = x ∷ take n xs

  abbrev pub drop : ℕ → List A → List A
  drop zero xs = xs
  drop (suc n) [] = []
  drop (suc n) (x ∷ xs) = drop n xs

  abbrev pub is_empty : List A → Bool
  is_empty [] = true
  is_empty (x ∷ xs) = false

  -- The elements that pass a test, in order.
  abbrev pub keep : (A → Bool) → List A → List A
  keep p [] = []
  keep p (x ∷ xs) = let rest = keep p xs in if p x then x ∷ rest else rest

  abbrev pub any : (A → Bool) → List A → Bool
  any p [] = false
  any p (x ∷ xs) = p x || any p xs

  pub length-append : (xs ys : List A) → length (xs ++ ys) ≡ length xs + length ys
  length-append [] ys = omega arith
  length-append (x ∷ xs) ys = omega (arith, length-append xs ys)

  -- How many elements pass a test.
  abbrev pub count_if : (A → Bool) → List A → ℕ
  count_if p [] = 0
  count_if p (x ∷ xs) = let n = count_if p xs in if p x then suc n else n

  pub count_if-append :
      (p : A → Bool) (xs ys : List A) → count_if p (xs ++ ys) ≡ count_if p xs + count_if p ys
  count_if-append p [] ys = omega arith
  count_if-append p (x ∷ xs) ys = ground (arith, count_if-append p xs ys)

module _ {ℓ κ} {A : Type ℓ} where
  abbrev pub All : (A → Type κ) → List A → Type κ
  All P [] = Unit
  All P (x ∷ xs) = P x × All P xs

  pub All-append : (P : A → Type κ) (xs ys : List A) → All P xs → All P ys → All P (xs ++ ys)
  All-append P [] ys hx hy = hy
  All-append P (x ∷ xs) ys hx hy = (hx.0, All-append P xs ys hx.1 hy)

-- What stands in `keep p xs` is what passes the test in `xs`.
module _ {ℓ} {A : Type ℓ} (p : A → Bool) (x : A) where
  mem-if :
      (b : Bool) (m : A) (r : List A)
      → Memᴰ x (if b then m ∷ r else r)
      → ((b ≡ true) × (x ≡ m)) ⊎ Memᴰ x r
  mem-if true m r (Memᴰ.head e) = inl (refl, e)
  mem-if true m r (Memᴰ.tail h) = inr h
  mem-if false m r h = inr h

  pub mem-keep : (ms : List A) → Memᴰ x (keep p ms) → Memᴰ x ms × (p x ≡ true)
  mem-keep [] h = elim h [ ]
  mem-keep (m ∷ ms) h = elim (mem-if (p m) m (keep p ms) h) [
    | inl (b, e) ↦ (Memᴰ.head e, ap p e ∙ b)
    | inr r ↦ (Memᴰ.tail (mem-keep ms r).0, (mem-keep ms r).1)
  ]

  pub keep-mem : (ms : List A) → Memᴰ x ms → p x ≡ true → Memᴰ x (keep p ms)
  keep-mem [] h t = elim h [ ]
  keep-mem (m ∷ ms) (Memᴰ.head e) t = rw (sym (ap p e) ∙ t) (Memᴰ.head e)
  keep-mem (m ∷ ms) (Memᴰ.tail h) t = elim (Bool-cases (p m)) [
    | inl b ↦ rw b (Memᴰ.tail (keep-mem ms h t))
    | inr b ↦ rw b (keep-mem ms h t)
  ]

zero_add : (n : ℕ) → 0 + n ≡ n
zero_add n = omega arith

suc_add : (m n : ℕ) → suc m + n ≡ suc (m + n)
suc_add m n = omega arith

-- Two cuts in a row.
module _ {ℓ} {A : Type ℓ} where
  take-nil : (n : ℕ) → take {A = A} n [] ≡ []
  take-nil zero = refl
  take-nil (suc n) = refl

  drop-nil : (n : ℕ) → drop {A = A} n [] ≡ []
  drop-nil zero = refl
  drop-nil (suc n) = refl

  pub drop-add : (k j : ℕ) (us : List A) → drop (k + j) us ≡ drop j (drop k us)
  drop-add zero j us = ap (λ m. drop m us) (zero_add j)
  drop-add (suc k) j [] = drop-nil (suc k + j) ∙ sym (drop-nil j)
  drop-add (suc k) j (u ∷ us) = ap (λ m. drop m (u ∷ us)) (suc_add k j) ∙ drop-add k j us

  pub take-add : (k j : ℕ) (us : List A) → take (k + j) us ≡ take k us ++ take j (drop k us)
  take-add zero j us = ap (λ m. take m us) (zero_add j)
  take-add (suc k) j [] = take-nil (suc k + j) ∙ sym (take-nil j)
  take-add (suc k) j (u ∷ us) =
      ap (λ m. take m (u ∷ us)) (suc_add k j) ∙ ap (λ vs. u ∷ vs) (take-add k j us)

  pub take_all : (k : ℕ) (us : List A) → length us ≤ k → take k us ≡ us
  take_all k [] h = take-nil k
  take_all zero (u ∷ us) h = ground arith
  take_all (suc k) (u ∷ us) h = ap (λ vs. u ∷ vs) (take_all k us (omega arith))
