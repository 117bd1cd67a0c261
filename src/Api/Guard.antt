-- ===== src/Api/Guard.antt =====
-- Comparison of secrets, and the answers of the endpoints.
use claw_mux.Base.{
  ℕ, Bool, not, ◌&&◌, Option, none, some, any, ltb, is_empty, if◌then◌else◌, ◌==◌, text_key, Text,
}

-- `secrets.compare_digest(a, b)` of two `str`: none is the TypeError for characters beyond ASCII.
unfoldable pub compare_digest : Text → Text → Option Bool
compare_digest a b =
    if any (λ c. not (ltb c 128)) a
    then none
    else if any (λ c. not (ltb c 128)) b
    then none
    else some (a == b)

-- How an endpoint ends: an HTTPException with its status, an exception that is none, or a body.
pub data Reply (A : Type 0) : Type 0 where
  refused : ℕ → Reply A
  crashed : Reply A
  done : A → Reply A

-- The secret is configured, and it is what was provided.
abbrev pub holds : Text → Text → Bool
holds secret provided = not (is_empty secret) && provided == secret
