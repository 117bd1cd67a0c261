-- ===== src/Web/Text.antt =====
-- More methods of Python's `str`.
use claw_mux.Base.{
  ℕ, zero, suc, ◌-◌, Bool, not, List, [], ◌∷◌, ◌++◌, reverse, map, leb, if◌then◌else◌, Text,
  starts_with, length, is_empty, split_on, strip, ◌&&◌, keep,
}

-- s.lstrip(chars)
unfoldable pub lstrip_chars : (ℕ → Bool) → Text → Text
lstrip_chars p [] = []
lstrip_chars p (c ∷ s) = let rest = lstrip_chars p s in if p c then rest else c ∷ s

-- s.rstrip(chars)
unfoldable pub rstrip_chars : (ℕ → Bool) → Text → Text
unfolding lstrip_chars
rstrip_chars p s = reverse (lstrip_chars p (reverse s))

-- s.strip(chars)
unfoldable pub strip_chars : (ℕ → Bool) → Text → Text
unfolding lstrip_chars rstrip_chars
strip_chars p s = rstrip_chars p (lstrip_chars p s)

-- s.replace(old, new) for an `old` that is not empty; `skip` characters belong to the last match.
unfoldable pub replace_from : ℕ → Text → Text → Text → Text
replace_from skip old new [] = []
replace_from (suc skip) old new (c ∷ s) = replace_from skip old new s
replace_from zero old new (c ∷ s) =
    let found = new ++ replace_from (length old - 1) old new s in
    let kept = c ∷ replace_from zero old new s in if starts_with (c ∷ s) old then found else kept

unfoldable pub replace : Text → Text → Text → Text
unfolding replace_from
replace s old new = replace_from zero old new s

-- The text before and behind the first character of a kind; the second is none without one.
unfoldable pub break_at : (ℕ → Bool) → Text → Text × Text
break_at p [] = ([], [])
break_at p (c ∷ s) =
    let (before, behind) = break_at p s in if p c then ([], c ∷ s) else (c ∷ before, behind)

-- [item.strip() for item in value.split(",") if item.strip()]
unfoldable pub split_csv : Text → List Text
split_csv value = keep (λ t. not (is_empty t)) (map strip (split_on b',' value))

-- s.isdigit(), on ASCII
abbrev pub is_digit : ℕ → Bool
is_digit c = leb b'0' c && leb c b'9'
