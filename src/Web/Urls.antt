-- ===== src/Web/Urls.antt =====
-- `urllib.parse.urlparse`: the scheme and the host of an address. Addresses with brackets are those
-- of IPv6 hosts.
use claw_mux.Base.{
  ℕ, Bool, false, not, ◌&&◌, ◌||◌, Option, none, some, [], ◌∷◌, nat_eq, leb, any, if◌then◌else◌,
  text_key, Text, codes, lower, starts_with, is_empty, drop, keep,
}
use claw_mux.Web.Text.{lstrip_chars, break_at, is_digit}

-- What is stripped from the front, and what is removed everywhere: tab, newline and return.
abbrev pub is_control : ℕ → Bool
is_control c = leb c 32

abbrev pub is_unsafe : ℕ → Bool
is_unsafe c = nat_eq c 9 || nat_eq c 10 || nat_eq c 13

abbrev pub is_letter : ℕ → Bool
is_letter c = (leb b'a' c && leb c b'z') || (leb b'A' c && leb c b'Z')

abbrev pub is_scheme_char : ℕ → Bool
is_scheme_char c = is_letter c || is_digit c || nat_eq c b'+' || nat_eq c b'-' || nat_eq c b'.'

abbrev pub head_is : (ℕ → Bool) → Text → Bool
head_is p [] = false
head_is p (c ∷ s) = p c

unfoldable pub clean : Text → Text
unfolding lstrip_chars
clean url = keep (λ c. not (is_unsafe c)) (lstrip_chars is_control url)

-- The scheme and what follows its colon; without a scheme, "" and the whole.
unfoldable pub split_scheme : Text → Text × Text
unfolding break_at
split_scheme url =
    let (scheme, behind) = break_at (λ c. nat_eq c b':') url in
    if not (is_empty behind)
      && head_is is_letter scheme
      && not (any (λ c. not (is_scheme_char c)) scheme)
    then (lower scheme, drop 1 behind)
    else ([], url)

-- The part between "//" and the next "/", "?" or "#".
unfoldable pub netloc_of : Text → Text
unfolding break_at
netloc_of rest =
    if starts_with rest (codes "//")
    then (break_at (λ c. nat_eq c b'/' || nat_eq c b'?' || nat_eq c b'#') (drop 2 rest)).0
    else []

-- What follows the last "@".
unfoldable pub after_at : Text → Text
after_at [] = []
after_at (c ∷ s) = let rest = after_at s in if any (λ d. nat_eq d b'@') (c ∷ s) then rest else c ∷ s

-- The host of `hostinfo`, before its port.
unfoldable pub host_of : Text → Text
unfolding break_at
host_of info =
    let (before, bracketed) = break_at (λ c. nat_eq c b'[') info in
    if is_empty bracketed
    then (break_at (λ c. nat_eq c b':') info).0
    else (break_at (λ c. nat_eq c b']') (drop 1 bracketed)).0

-- The scheme and the host, "" where Python has None. `is_valid` is Python's check of a netloc that
-- has brackets or that is not ASCII; none is its ValueError.
module _ (is_valid : Text → Bool) where
  unfoldable pub urlparse : Text → Option (Text × Text)
  unfolding clean split_scheme netloc_of after_at host_of
  urlparse url =
      let (scheme, rest) = split_scheme (clean url) in
      let netloc = netloc_of rest in
      if any (λ c. nat_eq c b'[' || nat_eq c b']' || leb 128 c) netloc && not (is_valid netloc)
      then none
      else some (scheme, lower (host_of (after_at netloc)))
