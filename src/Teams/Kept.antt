-- ===== src/Teams/Kept.antt =====
-- What eviction and removal leave of a dictionary.
use claw_mux.Base.{
  ℕ, zero, suc, ◌-◌, ◌≤◌, ◌≡◌, sym, ap, ◌∙◌, inl, inr, if◌then◌else◌, some, some-inj, List, [], ◌∷◌,
  length, drop, All, arith, ◌==◌, text_key, Bool-cases, Text,
}
use claw_mux.Base.Dict.{Dict, get, pop}
use claw_mux.Teams.Adapter.{evict}

pub All-pop : (P : Text × Text → Type 0) (d : Dict Text Text) (k : Text) → All P d → All P (pop d k)
unfolding pop
All-pop P [] k h = tt
All-pop P ((j, v) ∷ d) k h = elim (Bool-cases (j == k)) [
  | inl e ↦ rw e (All-pop P d k h.1)
  | inr e ↦ rw e (h.0, All-pop P d k h.1)
]

pub All-drop : {A : Type 0} (P : A → Type 0) (n : ℕ) (xs : List A) → All P xs → All P (drop n xs)
All-drop P zero xs h = h
All-drop P (suc n) [] h = tt
All-drop P (suc n) (x ∷ xs) h = All-drop P n xs h.1

pub All-get :
    (P : Text × Text → Type 0) (d : Dict Text Text) (k u : Text)
    → All P d
    → get d k ≡ some u
    → (j : Text) × P (j, u)
unfolding get
All-get P [] k u h e = cc
All-get P ((j, v) ∷ d) k u h e = elim (Bool-cases (j == k)) [
  | inl b ↦ (j, rw (some-inj (sym e ∙ ap (λ b. if b then some v else get d k) b)) h.0)
  | inr b ↦ All-get P d k u h.1 (sym (ap (λ b. if b then some v else get d k) b) ∙ e)
]

length-drop : {A : Type 0} (n : ℕ) (xs : List A) → length (drop n xs) ≡ length xs - n
length-drop zero xs = omega arith
length-drop (suc n) [] = omega arith
length-drop (suc n) (x ∷ xs) = omega (arith, length-drop n xs)

pub length-evict : (limit : ℕ) (d : Dict Text Text) → length (evict limit d) ≤ limit
unfolding evict
length-evict limit d = omega (arith, length-drop (length d - limit) d)

length-pop : (d : Dict Text Text) (k : Text) → length (pop d k) ≤ length d
unfolding pop
length-pop [] k = omega arith
length-pop ((j, v) ∷ d) k = elim (Bool-cases (j == k)) [
  | inl e ↦ rw e (omega (arith, length-pop d k))
  | inr e ↦ rw e (omega (arith, length-pop d k))
]

pub length-pop_known :
    (d : Dict Text Text) (k u : Text) → get d k ≡ some u → suc (length (pop d k)) ≤ length d
unfolding pop get
length-pop_known [] k u e = cc
length-pop_known ((j, v) ∷ d) k u e = elim (Bool-cases (j == k)) [
  | inl b ↦ rw b (omega (arith, length-pop d k))
  | inr b ↦
      rw b (
        omega (arith, length-pop_known d k u (sym (ap (λ b. if b then some v else get d k) b) ∙ e)))
]
