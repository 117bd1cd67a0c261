-- ===== src/Files/Names.antt =====
-- Names of attachments.
use claw_mux.Base.{
  ℕ, Bool, not, ◌||◌, [], ◌∷◌, nat_eq, leb, any, if◌then◌else◌, Text, is_empty, keep, map,
}

-- name.replace("\\", "/")
abbrev pub to_slash : ℕ → ℕ
to_slash c = if nat_eq c 92 then b'/' else c

-- A slash stands in the text.
abbrev pub has_slash : Text → Bool
has_slash s = any (λ c. nat_eq c b'/') s

-- os.path.basename: what follows the last slash.
unfoldable pub basename : Text → Text
basename [] = []
basename (c ∷ s) = let rest = basename s in if nat_eq c b'/' || has_slash s then rest else c ∷ s

-- [\x00-\x1f\x7f]
abbrev pub is_control : ℕ → Bool
is_control c = leb c 31 || nat_eq c 127

-- clean.lstrip(". ")
unfoldable pub strip_dots : Text → Text
strip_dots [] = []
strip_dots (c ∷ s) = let rest = strip_dots s in if nat_eq c b'.' || nat_eq c 32 then rest else c ∷ s

unfoldable pub sanitize_filename : Text → Text → Text
unfolding basename strip_dots
sanitize_filename name fallback =
    let clean = strip_dots (keep (λ c. not (is_control c)) (basename (map to_slash name))) in
    if is_empty name || is_empty clean then fallback else clean
