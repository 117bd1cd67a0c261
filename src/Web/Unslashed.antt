-- ===== src/Web/Unslashed.antt =====
-- The text of a UUID has no slash: it is one component of a path.
use claw_mux.Base.{
  ℕ, zero, suc, ◌-◌, ◌≡◌, refl, sym, ap, ◌∙◌, inl, inr, ◌⊎◌, Bool, true, false, ◌&&◌, ◌||◌, [], ◌∷◌,
  ◌++◌, reverse, nat_eq, nat_eq_iff, any, arith, Bool-cases, and_true, if◌then◌else◌, Text, codes,
  strip, lstrip, is_space, starts_with, starts_with_split, length, drop, take,
}
use claw_mux.Web.Text.{replace, replace_from, strip_chars, rstrip_chars, lstrip_chars}
use claw_mux.Web.Uuid.{is_hex_digit, is_digits, is_int16, is_uuid, drop_sign}
use mathlib.Core.List.{reverse_aux}

abbrev pub has_slash : Text → Bool
has_slash s = any (λ c. nat_eq c b'/') s

has_slash-append : (s t : Text) → has_slash (s ++ t) ≡ (has_slash s || has_slash t)
has_slash-append [] t = refl
has_slash-append (c ∷ s) t = ground (arith, has_slash-append s t)

has_slash-reverse_aux : (s t : Text) → has_slash (reverse_aux s t) ≡ (has_slash s || has_slash t)
has_slash-reverse_aux [] t = refl
has_slash-reverse_aux (c ∷ s) t = ground (arith, has_slash-reverse_aux s (c ∷ t))

has_slash-reverse : (s : Text) → has_slash s ≡ true → has_slash (reverse s) ≡ true
has_slash-reverse s h = ground (arith, has_slash-reverse_aux s [])

has_slash-lstrip : (s : Text) → has_slash s ≡ true → has_slash (lstrip s) ≡ true
unfolding lstrip is_space
has_slash-lstrip [] h = h
has_slash-lstrip (c ∷ s) h = ground (arith, has_slash-lstrip s)

has_slash-strip : (s : Text) → has_slash s ≡ true → has_slash (strip s) ≡ true
unfolding strip
has_slash-strip s h =
    has_slash-reverse (lstrip (reverse (lstrip s)))
      (has_slash-lstrip (reverse (lstrip s)) (has_slash-reverse (lstrip s) (has_slash-lstrip s h)))

has_slash-lstrip_chars :
    (p : ℕ → Bool) (s : Text)
    → p b'/' ≡ false
    → has_slash s ≡ true
    → has_slash (lstrip_chars p s) ≡ true
unfolding lstrip_chars
has_slash-lstrip_chars p [] n h = h
has_slash-lstrip_chars p (c ∷ s) n h = elim (Bool-cases (nat_eq c b'/')) [
  | inl e ↦ rw (ap p ((nat_eq_iff c b'/').0 e) ∙ n) (ground arith)
  | inr e ↦ ground (arith, has_slash-lstrip_chars p s n)
]

has_slash-strip_chars :
    (p : ℕ → Bool) (s : Text)
    → p b'/' ≡ false
    → has_slash s ≡ true
    → has_slash (strip_chars p s) ≡ true
unfolding strip_chars rstrip_chars
has_slash-strip_chars p s n h = has_slash-reverse (lstrip_chars p (reverse (lstrip_chars p s))) (
    has_slash-lstrip_chars p (reverse (lstrip_chars p s)) n
      (has_slash-reverse (lstrip_chars p s) (has_slash-lstrip_chars p s n h)))

-- The rest of a match that begins at the front of a text.
starts_with-take : (s p : Text) → starts_with s p ≡ true → take (length p) s ≡ p
unfolding starts_with
starts_with-take s [] h = refl
starts_with-take [] (c ∷ p) h = cc
starts_with-take (d ∷ s) (c ∷ p) h = ground (arith, starts_with-take s p, nat_eq_iff d c)

less_one : (n : ℕ) → suc n - 1 ≡ n
less_one n = omega arith

behind-append : (new r : Text) → has_slash r ≡ true → has_slash (new ++ r) ≡ true
behind-append new r h = ground (arith, has_slash-append new r)

behind :
    (c o : ℕ) (s old : Text)
    → has_slash (o ∷ old) ≡ false
    → has_slash (c ∷ s) ≡ true
    → starts_with (c ∷ s) (o ∷ old) ≡ true
    → (has_slash (take (length old) s) ≡ false) × (has_slash s ≡ true)
unfolding starts_with
behind c o s old n h e =
    let (first, more) = and_true (nat_eq c o) (starts_with s old) e in
    (ap has_slash (starts_with-take s old more) ∙ tail_clean, ground (arith, nat_eq_iff c o))
  where
    tail_clean : has_slash old ≡ false
    tail_clean = ground arith

-- A replacement removes no character that is not in what it replaces.
has_slash-replace_from :
    (skip o : ℕ) (old new s : Text)
    → has_slash (o ∷ old) ≡ false
    → has_slash (take skip s) ≡ false
    → has_slash s ≡ true
    → has_slash (replace_from skip (o ∷ old) new s) ≡ true
unfolding replace_from
has_slash-replace_from zero o old new [] n k h = h
has_slash-replace_from (suc skip) o old new [] n k h = h
has_slash-replace_from (suc skip) o old new (c ∷ s) n k h =
    has_slash-replace_from skip o old new s n (ground arith) (ground arith)
has_slash-replace_from zero o old new (c ∷ s) n k h =
    elim (Bool-cases (starts_with (c ∷ s) (o ∷ old))) [
      | inl e ↦ rw e (
          let (clean, kept) = behind c o s old n h e in
          behind-append new (replace_from (length (o ∷ old) - 1) (o ∷ old) new s) (
            has_slash-replace_from (length (o ∷ old) - 1) o old new s n
              (ap (λ m. has_slash (take m s)) (less_one (length old)) ∙ clean) kept))
      | inr e ↦ rw e (ground (arith, has_slash-replace_from zero o old new s n))
    ]

absurd : true ≡ false → ⊥
absurd h = cc

is_digits-tail :
    (b : Bool) (c : ℕ) (s : Text)
    → is_digits b (c ∷ s) ≡ true
    → (is_digits false s ≡ true) ⊎ (is_digits true s ≡ true)
unfolding is_digits
is_digits-tail b c s h = elim (Bool-cases (nat_eq c b'_')) [
  | inl e ↦
      inl
        (and_true b (is_digits false s) (
          sym (ap (λ t. if t then b && is_digits false s else is_hex_digit c && is_digits true s) e)
          ∙ h)).1
  | inr e ↦
      inr
        (and_true (is_hex_digit c) (is_digits true s) (
          sym (ap (λ t. if t then b && is_digits false s else is_hex_digit c && is_digits true s) e)
          ∙ h)).1
]

is_digits_unslashed : (b : Bool) (s : Text) → is_digits b s ≡ true → has_slash s ≡ false
unfolding is_digits is_hex_digit
is_digits_unslashed b [] h = refl
is_digits_unslashed b (c ∷ s) h = elim (Bool-cases (nat_eq c b'/')) [
  | inl e ↦ elim (absurd (sym h ∙ ap (λ d. is_digits b (d ∷ s)) ((nat_eq_iff c b'/').0 e))) [ ]
  | inr e ↦ elim (is_digits-tail b c s h) [
    | inl d ↦ rw e (is_digits_unslashed false s d)
    | inr d ↦ rw e (is_digits_unslashed true s d)
  ]
]

has_slash-drop_sign : (s : Text) → has_slash s ≡ true → has_slash (drop_sign s) ≡ true
has_slash-drop_sign [] h = h
has_slash-drop_sign (c ∷ s) h = ground arith

-- A prefix without a slash leaves the slashes behind it.
has_slash-drop :
    (s p : Text)
    → starts_with s p ≡ true
    → has_slash p ≡ false
    → has_slash s ≡ true
    → has_slash (drop (length p) s) ≡ true
has_slash-drop s p e n h =
    ground (arith, has_slash-append p (drop (length p) s), ap has_slash (starts_with_split s p e))

not_digits : (s : Text) → has_slash s ≡ true → is_digits false s ≡ false
not_digits s h = elim (Bool-cases (is_digits false s)) [
  | inl e ↦ elim (absurd (sym h ∙ is_digits_unslashed false s e)) [ ]
  | inr e ↦ e
]

abbrev behind_underscore : Text → Text
behind_underscore bare = if starts_with bare (codes "_") then drop 1 bare else bare

not_bare : (bare : Text) → has_slash bare ≡ true → is_digits false (behind_underscore bare) ≡ false
not_bare bare h = elim (Bool-cases (starts_with bare (codes "_"))) [
  | inl e ↦ rw e (not_digits (drop 1 bare) (has_slash-drop bare (codes "_") e refl h))
  | inr e ↦ rw e (not_digits bare h)
]

not_int16 :
    (body : Text)
    → has_slash body ≡ true
    → (if starts_with body (codes "0x") || starts_with body (codes "0X")
        then is_digits false (behind_underscore (drop 2 body))
        else is_digits false body)
      ≡ false
not_int16 body h = elim (Bool-cases (starts_with body (codes "0x"))) [
  | inl e ↦ rw e (not_bare (drop 2 body) (has_slash-drop body (codes "0x") e refl h))
  | inr e ↦ rw e (elim (Bool-cases (starts_with body (codes "0X"))) [
    | inl f ↦ rw f (not_bare (drop 2 body) (has_slash-drop body (codes "0X") f refl h))
    | inr f ↦ rw f (not_digits body h)
  ])
]

is_int16_slash : (s : Text) → has_slash s ≡ true → is_int16 s ≡ false
unfolding is_int16
is_int16_slash s h =
    not_int16 (drop_sign (strip s)) (has_slash-drop_sign (strip s) (has_slash-strip s h))

has_slash-replace :
    (s old new : Text) (o : ℕ)
    → has_slash (o ∷ old) ≡ false
    → has_slash s ≡ true
    → has_slash (replace s (o ∷ old) new) ≡ true
unfolding replace
has_slash-replace s old new o n h = has_slash-replace_from 0 o old new s n refl h

-- What `uuid.UUID` accepts has no slash.
pub is_uuid_unslashed : (s : Text) → is_uuid s ≡ true → has_slash s ≡ false
unfolding is_uuid
is_uuid_unslashed s h = elim (Bool-cases (has_slash s)) [
  | inr e ↦ e
  | inl e ↦ elim (absurd (sym (and_true _ _ h).1 ∙ is_int16_slash (hex s) (slash_hex e))) [ ]
]
  where
    bare : Text → Text
    bare s = replace (replace s (codes "urn:") []) (codes "uuid:") []

    hex : Text → Text
    hex s = replace (strip_chars (λ c. nat_eq c b'{' || nat_eq c b'}') (bare s)) (codes "-") []

    slash_hex : has_slash s ≡ true → has_slash (hex s) ≡ true
    slash_hex e =
        has_slash-replace (strip_chars (λ c. nat_eq c b'{' || nat_eq c b'}') (bare s)) [] [] b'-'
          refl
          (has_slash-strip_chars (λ c. nat_eq c b'{' || nat_eq c b'}') (bare s) refl
            (has_slash-replace (replace s (codes "urn:") []) (codes "uid:") [] b'u' refl
              (has_slash-replace s (codes "rn:") [] b'u' refl e)))
