-- ===== src/Aggregator/Select.antt =====
-- Which message `_select_best` picks.
use mathlib.Core.List.{Memᴰ}
use mathlib.Core.List.Memᴰ.{not-nil}
use mathlib.Core.Path.{subst}
use claw_mux.Base.{
  ℕ, ◌≤◌, ◌≡◌, refl, ◌⊎◌, inl, inr, Bool, true, false, Option, none, some, List, [], ◌∷◌, arith,
  ltb, keep, Bool-cases, Option-cases, ◌&&◌, ap, some-inj, and_true, mem-keep, keep-mem,
  if◌then◌else◌,
}
use claw_mux.Aggregator.{
  ClawMessage, is_final, has_words, is_valid_text, max_from, max_seq, select_best,
}

-- `m` stands in `ms`, and none has a higher number.
record IsMax (ms : List ClawMessage) (m : ClawMessage) : Type 0 where
  member : Memᴰ m ms
  highest : (x : ClawMessage) → Memᴰ x ms → x.seq ≤ m.seq

max_from-ge : (best : ClawMessage) (ms : List ClawMessage) → best.seq ≤ (max_from best ms).seq
unfolding max_from
max_from-ge best [] = omega arith
max_from-ge best (m ∷ ms) = ground (arith, max_from-ge (if ltb best.seq m.seq then m else best) ms)

max_from-highest :
    (best : ClawMessage) (ms : List ClawMessage) (x : ClawMessage)
    → Memᴰ x ms
    → x.seq ≤ (max_from best ms).seq
unfolding max_from
max_from-highest best [] x h = elim h [ ]
max_from-highest best (m ∷ ms) x (Memᴰ.head e) =
    let c = if ltb best.seq m.seq then m else best in
    ground (arith, max_from-ge c ms, ap (λ (y : ClawMessage). y.seq) e)
max_from-highest best (m ∷ ms) x (Memᴰ.tail h) =
    max_from-highest (if ltb best.seq m.seq then m else best) ms x h

max_from-member :
    (best : ClawMessage) (ms : List ClawMessage)
    → (max_from best ms ≡ best) ⊎ Memᴰ (max_from best ms) ms
unfolding max_from
max_from-member best [] = inl refl
max_from-member best (m ∷ ms) = elim (Bool-cases (ltb best.seq m.seq)) [
  | inl e ↦
      rw e (elim (max_from-member m ms) [ inl q ↦ inr (Memᴰ.head q) | inr r ↦ inr (Memᴰ.tail r) ])
  | inr e ↦ rw e (elim (max_from-member best ms) [ inl q ↦ inl q | inr r ↦ inr (Memᴰ.tail r) ])
]

max_seq-IsMax : (ms : List ClawMessage) (m : ClawMessage) → max_seq ms ≡ some m → IsMax ms m
unfolding max_seq
max_seq-IsMax [] m h = cc
max_seq-IsMax (x ∷ ms) m h = subst (IsMax (x ∷ ms)) (some-inj h) (record {
  member = elim (max_from-member x ms) [ inl q ↦ Memᴰ.head q | inr r ↦ Memᴰ.tail r ];
  highest = bound;
})
  where
    bound : (y : ClawMessage) → Memᴰ y (x ∷ ms) → y.seq ≤ (max_from x ms).seq
    bound y (Memᴰ.head e) = omega (arith, max_from-ge x ms, ap (λ (z : ClawMessage). z.seq) e)
    bound y (Memᴰ.tail r) = max_from-highest x ms y r

max_seq-none : (ms : List ClawMessage) → max_seq ms ≡ none → ms ≡ []
unfolding max_seq
max_seq-none [] h = refl
max_seq-none (m ∷ ms) h = cc

-- A message of `ms` passes the test, and none that passes it has a higher number.
pub record IsBest (p : ClawMessage → Bool) (ms : List ClawMessage) (m : ClawMessage) : Type 0 where
  pub member : Memᴰ m ms
  pub passes : p m ≡ true
  pub highest : (x : ClawMessage) → Memᴰ x ms → p x ≡ true → x.seq ≤ m.seq

abbrev pub NonePass : (ClawMessage → Bool) → List ClawMessage → Type 0
NonePass p ms = (x : ClawMessage) → Memᴰ x ms → p x ≡ false

-- A final message with a real answer.
abbrev pub is_answer : ℕ → ClawMessage → Bool
is_answer min_len m = is_final m && is_valid_text min_len m.text

-- A final message with any text at all.
abbrev pub is_spoken : ClawMessage → Bool
is_spoken m = is_final m && has_words m

pub data Chosen (min_len : ℕ) (ms : List ClawMessage) : Option ClawMessage → Type 0 where
  answer : (m : ClawMessage) → IsBest (is_answer min_len) ms m → Chosen min_len ms (some m)
  placeholder :
      (m : ClawMessage)
      → NonePass (is_answer min_len) ms
      → IsBest is_spoken ms m
      → Chosen min_len ms (some m)
  nothing : NonePass (is_answer min_len) ms → NonePass is_spoken ms → Chosen min_len ms none

module _ (q : ClawMessage → Bool) (ms : List ClawMessage) where
  abbrev finals : List ClawMessage
  finals = keep q (keep is_final ms)

  IsMax-IsBest : (m : ClawMessage) → IsMax finals m → IsBest (λ x. is_final x && q x) ms m
  IsMax-IsBest m h =
      let a = mem-keep q m (keep is_final ms) h.member in
      let b = mem-keep is_final m ms a.0 in
      record {
        member = b.0;
        passes = rw (b.1, a.1);
        highest = λ x k t.
            let u = and_true (is_final x) (q x) t in
            h.highest x (keep-mem q x (keep is_final ms) (keep-mem is_final x ms k u.0) u.1);
      }

  empty-NonePass : finals ≡ [] → NonePass (λ x. is_final x && q x) ms
  empty-NonePass e x k = elim (Bool-cases (is_final x && q x)) [
    | inr f ↦ f
    | inl t ↦
        let u = and_true (is_final x) (q x) t in
        absurd (
          not-nil
            (subst (Memᴰ x) e (keep-mem q x (keep is_final ms) (keep-mem is_final x ms k u.0) u.1)))
  ]

pub select_best-Chosen :
    (min_len : ℕ) (ms : List ClawMessage) → Chosen min_len ms (select_best min_len ms)
unfolding select_best
select_best-Chosen min_len ms = elim (Option-cases (max_seq (finals valid ms))) [
  | inr (m, e) ↦ rw e (answer m (IsMax-IsBest valid ms m (max_seq-IsMax (finals valid ms) m e)))
  | inl e ↦
      let none_valid = empty-NonePass valid ms (max_seq-none (finals valid ms) e) in
      elim (Option-cases (max_seq (finals has_words ms))) [
        | inr (m, f) ↦
            rw (e, f)
              (placeholder m none_valid
                (IsMax-IsBest has_words ms m (max_seq-IsMax (finals has_words ms) m f)))
        | inl f ↦
            rw (e, f)
              (nothing none_valid
                (empty-NonePass has_words ms (max_seq-none (finals has_words ms) f)))
      ]
]
  where
    valid : ClawMessage → Bool
    valid m = is_valid_text min_len m.text

chosen-mem :
    {min_len : ℕ} {ms : List ClawMessage} {o : Option ClawMessage} (m : ClawMessage)
    → Chosen min_len ms o
    → o ≡ some m
    → Memᴰ m ms
chosen-mem {ms = ms} m (answer n b) e = subst (λ x. Memᴰ x ms) (some-inj e) b.member
chosen-mem {ms = ms} m (placeholder n p b) e = subst (λ x. Memᴰ x ms) (some-inj e) b.member
chosen-mem m (nothing p q) e = cc

-- What is chosen is one of the messages.
pub select_best-mem :
    (min_len : ℕ) (ms : List ClawMessage) (m : ClawMessage)
    → select_best min_len ms ≡ some m
    → Memᴰ m ms
select_best-mem min_len ms m e = chosen-mem m (select_best-Chosen min_len ms) e

-- A single real answer is chosen.
pub select_best-single :
    (min_len : ℕ) (m : ClawMessage)
    → is_final m ≡ true
    → is_valid_text min_len m.text ≡ true
    → select_best min_len (m ∷ []) ≡ some m
unfolding select_best max_seq
select_best-single min_len m f v = rw (f, v)
