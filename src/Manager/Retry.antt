-- ===== src/Manager/Retry.antt =====
-- The attempts to connect and the pauses between them.
use native.Mathlib.Nat.{pow-suc, zero-add, add-zero, add-suc, suc-add}
use claw_mux.Base.{
  ℕ, zero, suc, ◌+◌, ◌-◌, ◌*◌, ◌^◌, ◌≤◌, ◌≡◌, refl, ap, Bool, true, false, List, [], ◌∷◌, arith,
  ltb, if◌then◌else◌,
}
use claw_mux.Manager.{attempts}

-- How many of the first `n` attempts fail before one succeeds.
abbrev pub failures : ℕ → List Bool → ℕ
failures zero answers = 0
failures (suc n) [] = suc (failures n [])
failures (suc n) (true ∷ answers) = 0
failures (suc n) (false ∷ answers) = suc (failures n answers)

-- `k` delays that double from `base * 2 ^ done`.
abbrev pub backoff : ℕ → ℕ → ℕ → List ℕ
backoff base done zero = []
backoff base done (suc k) = base * 2 ^ done ∷ backoff base (suc done) k

abbrev pub total : List ℕ → ℕ
total [] = 0
total (d ∷ ds) = d + total ds

-- The pauses: one behind each failed attempt but the last.
abbrev pub pauses : ℕ → ℕ → ℕ
pauses n k = if ltb k n then k else n - 1

pub failures-le : (n : ℕ) (answers : List Bool) → failures n answers ≤ n
failures-le zero answers = omega arith
failures-le (suc n) [] = omega (arith, failures-le n [])
failures-le (suc n) (true ∷ answers) = omega arith
failures-le (suc n) (false ∷ answers) = omega (arith, failures-le n answers)

pauses-suc : (n k : ℕ) → pauses (suc (suc n)) (suc k) ≡ suc (pauses (suc n) k)
pauses-suc n k = ground arith

attempts-delays :
    (base n done : ℕ) (answers : List Bool)
    → (attempts base n done answers).delays ≡ backoff base done (pauses n (failures n answers))
unfolding attempts
attempts-delays base zero done answers = refl
attempts-delays base (suc zero) done [] = refl
attempts-delays base (suc zero) done (true ∷ answers) = refl
attempts-delays base (suc zero) done (false ∷ answers) = refl
attempts-delays base (suc (suc n)) done [] =
    rw (pauses-suc n (suc (failures n [])))
      (ap (λ l. base * 2 ^ done ∷ l) (attempts-delays base (suc n) (suc done) []))
attempts-delays base (suc (suc n)) done (true ∷ answers) = ground arith
attempts-delays base (suc (suc n)) done (false ∷ answers) =
    rw (pauses-suc n (failures (suc n) answers))
      (ap (λ l. base * 2 ^ done ∷ l) (attempts-delays base (suc n) (suc done) answers))

attempts-up :
    (base n done : ℕ) (answers : List Bool)
    → (attempts base n done answers).up ≡ ltb (failures n answers) n
unfolding attempts
attempts-up base zero done answers = refl
attempts-up base (suc zero) done [] = refl
attempts-up base (suc (suc n)) done [] = ground (arith, attempts-up base (suc n) (suc done) [])
attempts-up base (suc n) done (true ∷ answers) = ground arith
attempts-up base (suc zero) done (false ∷ answers) = ground arith
attempts-up base (suc (suc n)) done (false ∷ answers) =
    ground (arith, attempts-up base (suc n) (suc done) answers)

total-backoff :
    (base done k : ℕ) → total (backoff base done k) + base * 2 ^ done ≡ base * 2 ^ (done + k)
total-backoff base done zero = rw add-zero (omega arith)
total-backoff base done (suc k) =
    grind (arith, total-backoff base (suc done) k, pow-suc 2 done, suc-add done k, add-suc done k)

-- `_connect_with_retry` makes at most `n` attempts and succeeds exactly if one of the first `n`
-- does; it sleeps once behind each failed attempt but the last, for the base delay first and twice
-- as long each time, so that all its pauses and one base delay more make the base delay times two
-- to their number.
pub attempts_exact :
    (base n : ℕ) (answers : List Bool)
    → let r = attempts base n 0 answers in
      let k = pauses n (failures n answers) in
      (r.up ≡ ltb (failures n answers) n)
      × (r.delays ≡ backoff base 0 k)
      × (total r.delays + base ≡ base * 2 ^ k)
attempts_exact base n answers =
    let k = pauses n (failures n answers) in
    let d = attempts-delays base n 0 answers in
    (
      attempts-up base n 0 answers,
      d,
      rw d (omega (arith, (rw zero-add at (total-backoff base 0 k)))),
    )
