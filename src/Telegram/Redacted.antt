-- ===== src/Telegram/Redacted.antt =====
-- The bot's token does not reach the errors of a reply.
use claw_mux.Base.{
  ℕ, zero, suc, ◌-◌, ◌≡◌, refl, sym, ap, ◌∙◌, inl, inr, Bool, true, false, ◌&&◌, ◌||◌, List, [],
  ◌∷◌, ◌++◌, any, nat_eq, nat_eq_iff, arith, Bool-cases, is_empty, Text, codes, starts_with,
  contains, Result, ok, err, Option, length,
}
use claw_mux.Base.Exec.{recover}
use claw_mux.Web.Json.{Json}
use claw_mux.Web.Text.{replace, replace_from}
use claw_mux.Telegram.Send.{
  Request, Reply, Raised, http, unexpected, redact, redacted, send_reply, send_message,
  checked_post, thread_of,
}

abbrev stars : Text
stars = codes "***"

abbrev pub has_star : Text → Bool
has_star t = any (λ c. nat_eq c b'*') t

-- The two ways of a replacement at the first character.
replace_found :
    (old : Text) (c : ℕ) (s : Text)
    → starts_with (c ∷ s) old ≡ true
    → replace_from 0 old stars (c ∷ s) ≡ stars ++ replace_from (length old - 1) old stars s
unfolding replace_from
replace_found old c s e = rw e refl

replace_kept :
    (old : Text) (c : ℕ) (s : Text)
    → starts_with (c ∷ s) old ≡ false
    → replace_from 0 old stars (c ∷ s) ≡ c ∷ replace_from 0 old stars s
unfolding replace_from
replace_kept old c s e = rw e refl

replace_skipped :
    (skip : ℕ) (old : Text) (c : ℕ) (s : Text)
    → replace_from (suc skip) old stars (c ∷ s) ≡ replace_from skip old stars s
unfolding replace_from
replace_skipped skip old c s = refl

replace_end : (skip : ℕ) (old : Text) → replace_from skip old stars [] ≡ []
unfolding replace_from
replace_end zero old = refl
replace_end (suc skip) old = refl

starts_with-cons :
    (c d : ℕ) (p s : Text) → starts_with (c ∷ s) (d ∷ p) ≡ (nat_eq c d && starts_with s p)
unfolding starts_with
starts_with-cons c d p s = refl

contains-cons : (c : ℕ) (p s : Text) → contains (c ∷ s) p ≡ (starts_with (c ∷ s) p || contains s p)
unfolding contains
contains-cons c p s = refl

-- A text that begins with a star does not begin with the token.
star-no_start :
    (d : ℕ) (p s : Text) → has_star (d ∷ p) ≡ false → starts_with (b'*' ∷ s) (d ∷ p) ≡ false
unfolding starts_with
star-no_start d p s n = ground (arith, nat_eq_iff b'*' d)

star-contains :
    (d : ℕ) (p s : Text)
    → has_star (d ∷ p) ≡ false
    → contains (b'*' ∷ s) (d ∷ p) ≡ contains s (d ∷ p)
unfolding contains
star-contains d p s n = rw (star-no_start d p s n) refl

absurd : {b : Bool} → b ≡ true → b ≡ false → ⊥
absurd h k = cc

-- A prefix without a star of what a replacement makes is one of what it was made of.
starts_with-replace_from :
    (old p s : Text)
    → has_star p ≡ false
    → starts_with (replace_from 0 old stars s) p ≡ true
    → starts_with s p ≡ true
starts_with-replace_from old [] s n h = unfold starts_with in refl
starts_with-replace_from old (d ∷ p) [] n h =
    sym (ap (λ t. starts_with t (d ∷ p)) (replace_end 0 old)) ∙ h
starts_with-replace_from old (d ∷ p) (c ∷ s) n h = elim (Bool-cases (starts_with (c ∷ s) old)) [
  | inl e ↦
      elim (absurd (sym (ap (λ t. starts_with t (d ∷ p)) (replace_found old c s e)) ∙ h)
        (star-no_start d p _ n)) [ ]
  | inr e ↦
      step c d p s (starts_with-replace_from old p s (tail_of n))
        (sym (ap (λ t. starts_with t (d ∷ p)) (replace_kept old c s e)) ∙ h)
]
  where
    tail_of : has_star (d ∷ p) ≡ false → has_star p ≡ false
    tail_of n = ground arith

    step :
        (c d : ℕ) (p s : Text)
        → (starts_with (replace_from 0 old stars s) p ≡ true → starts_with s p ≡ true)
        → starts_with (c ∷ replace_from 0 old stars s) (d ∷ p) ≡ true
        → starts_with (c ∷ s) (d ∷ p) ≡ true
    step c d p s ih h = ground (
      arith,
      ih,
      starts_with-cons c d p s,
      starts_with-cons c d p (replace_from 0 old stars s),
      h,
    )

contains-replace_from :
    (skip d : ℕ) (old s : Text)
    → has_star (d ∷ old) ≡ false
    → contains (replace_from skip (d ∷ old) stars s) (d ∷ old) ≡ false
contains-replace_from skip d old [] n = rw (replace_end skip (d ∷ old)) (unfold contains in refl)
contains-replace_from (suc skip) d old (c ∷ s) n =
    rw (replace_skipped skip (d ∷ old) c s) (contains-replace_from skip d old s n)
contains-replace_from zero d old (c ∷ s) n = elim (Bool-cases (starts_with (c ∷ s) (d ∷ old))) [
  | inl e ↦ rw (replace_found (d ∷ old) c s e) (
      star-contains d old _ n
      ∙ star-contains d old _ n
      ∙ star-contains d old _ n
      ∙ contains-replace_from (length (d ∷ old) - 1) d old s n)
  | inr e ↦
      let r = replace_from 0 (d ∷ old) stars s in
      rw (replace_kept (d ∷ old) c s e)
        (contains-cons c (d ∷ old) r ∙ neither (no_start e) (contains-replace_from zero d old s n))
]
  where
    neither : {a b : Bool} → a ≡ false → b ≡ false → (a || b) ≡ false
    neither h k = ground arith

    no_start :
        starts_with (c ∷ s) (d ∷ old) ≡ false
        → starts_with (c ∷ replace_from 0 (d ∷ old) stars s) (d ∷ old) ≡ false
    no_start e = elim (Bool-cases (starts_with (c ∷ replace_from 0 (d ∷ old) stars s) (d ∷ old))) [
      | inr k ↦ k
      | inl k ↦
          elim (absurd
            (starts_with-replace_from (d ∷ old) (d ∷ old) (c ∷ s) n
              (ap (λ t. starts_with t (d ∷ old)) (replace_kept (d ∷ old) c s e) ∙ k))
            e) [ ]
    ]

-- What is redacted does not contain the token.
redact-hides :
    (token t : Text)
    → is_empty token ≡ false
    → has_star token ≡ false
    → contains (redact token t) token ≡ false
unfolding redact replace
redact-hides [] t e n = cc
redact-hides (d ∷ token) t e n = contains-replace_from 0 d token t n

module _ (token : Text) (render : Json → Text) (reply : List Request → Reply) (isfile : Text → Bool)
    (unread : Text → Option Text) where
  recovered-hides :
      (r : Result Raised Text) (log : List Request) (e : Text)
      → is_empty token ≡ false
      → has_star token ≡ false
      → (recover r (redacted token render reply isfile unread) log).0 ≡ err (http e)
      → contains e token ≡ false
  recovered-hides (ok a) log e h n k = cc
  recovered-hides (err (http x)) log e h n k =
      ap (λ t. contains t token) (sym (inj refl k)) ∙ redact-hides token x h n
    where
      inj : {a b : Text} {r : Result Raised Text} → r ≡ err (http a) → r ≡ err (http b) → a ≡ b
      inj h k = cc
  recovered-hides (err (unexpected x)) log e h n k = cc

  -- With a token that has no star in it, no HTTP error that a reply raises contains the token,
  -- whatever the text of the error of the request was.
  pub send_reply-hides :
      (channel message root : Text) (log : List Request) (e : Text)
      → is_empty token ≡ false
      → has_star token ≡ false
      → (send_reply token render reply isfile unread channel message root log).0 ≡ err (http e)
      → contains e token ≡ false
  unfolding send_reply
  send_reply-hides channel message root log e h n k =
      let (r, log') =
        checked_post token render reply isfile unread
          (send_message channel message (thread_of root)) log in
      recovered-hides r log' e h n k
