-- ===== src/Files/Sanitized.antt =====
-- What `sanitize_filename` makes of a name.
use claw_mux.Base.{
  ◌≡◌, refl, ◌⊎◌, inl, inr, Bool, false, not, ◌||◌, [], ◌∷◌, arith, Bool-cases, nat_eq, any, Text,
  is_empty, keep, map,
}
use claw_mux.Files.Names.{to_slash, has_slash, basename, is_control, strip_dots, sanitize_filename}

basename-plain : (s : Text) → has_slash (basename s) ≡ false
unfolding basename
basename-plain [] = refl
basename-plain (c ∷ s) = ground (arith, basename-plain s)

keep-slash : (s : Text) → has_slash s ≡ false → has_slash (keep (λ c. not (is_control c)) s) ≡ false
keep-slash [] h = refl
keep-slash (c ∷ s) h = ground (arith, keep-slash s)

keep-control : (s : Text) → any is_control (keep (λ c. not (is_control c)) s) ≡ false
keep-control [] = refl
keep-control (c ∷ s) = ground (arith, keep-control s)

strip-slash : (s : Text) → has_slash s ≡ false → has_slash (strip_dots s) ≡ false
unfolding strip_dots
strip-slash [] h = refl
strip-slash (c ∷ s) h = ground (arith, strip-slash s)

strip-control : (s : Text) → any is_control s ≡ false → any is_control (strip_dots s) ≡ false
unfolding strip_dots
strip-control [] h = refl
strip-control (c ∷ s) h = ground (arith, strip-control s)

-- The text begins with a dot or a space.
abbrev pub is_hidden : Text → Bool
is_hidden [] = false
is_hidden (c ∷ s) = nat_eq c b'.' || nat_eq c 32

strip-hidden : (s : Text) → is_hidden (strip_dots s) ≡ false
unfolding strip_dots
strip-hidden [] = refl
strip-hidden (c ∷ s) = ground (arith, strip-hidden s)

-- A sanitized name is the fallback, or it is not empty, has no slash and no control character in
-- it, and begins with neither a dot nor a space; so it is never "." or "..".
pub sanitize_filename_safe :
    (name fallback : Text)
    → let clean = sanitize_filename name fallback in
      (clean ≡ fallback)
      ⊎ ((is_empty clean ≡ false)
          × (has_slash clean ≡ false)
          × (any is_control clean ≡ false)
          × (is_hidden clean ≡ false))
unfolding sanitize_filename
sanitize_filename_safe name fallback =
    let base = basename (map to_slash name) in
    let bare = keep (λ c. not (is_control c)) base in
    elim (Bool-cases (is_empty name || is_empty (strip_dots bare))) [
      | inl e ↦ inl (rw e refl)
      | inr e ↦ inr (
          rw e (
            ground arith,
            strip-slash bare (keep-slash base (basename-plain (map to_slash name))),
            strip-control bare (keep-control base),
            strip-hidden bare,
          ))
    ]
