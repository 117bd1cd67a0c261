-- ===== src/OpenClaw/Media.antt =====
-- The paths of generated files in an answer, and their removal from its text (`_dispatch`, chat
-- events). The three patterns are read as the regular expressions are: the prefix is not escaped,
-- so its `.` stands for any character but a line break.
use claw_mux.Base.{
  ℕ, zero, suc, ◌+◌, Bool, true, false, not, ◌&&◌, Option, none, some, List, [], ◌∷◌, ◌++◌, nat_eq,
  if◌then◌else◌, length, drop, take, any, is_empty, ◌==◌, text_key, Text, codes, strip, is_space,
  starts_with,
}

abbrev pub openclaw_prefix : Text
openclaw_prefix = codes "/home/node/.openclaw/"

-- The pattern f"{openclaw_prefix}" at the head of a text.
unfoldable pub at_prefix : Text → Text → Bool
at_prefix [] s = true
at_prefix (p ∷ ps) [] = false
at_prefix (p ∷ ps) (c ∷ s) =
    (if nat_eq p b'.' then not (nat_eq c 10) else nat_eq p c) && at_prefix ps s

-- The longest head whose characters pass a test.
unfoldable pub run : (ℕ → Bool) → Text → Text
run p [] = []
run p (c ∷ s) = let rest = run p s in if p c then c ∷ rest else []

-- [^\s\"\'\)]
unfoldable pub path_char : ℕ → Bool
path_char c = not (is_space c) && not (nat_eq c b'"') && not (nat_eq c 39) && not (nat_eq c b')')

-- The length of a match of prefix[^\s\"\'\)]+ here; 0 if there is none.
unfoldable pub raw_match : Text → ℕ
unfolding at_prefix run path_char
raw_match s =
    let path = run path_char (drop (length openclaw_prefix) s) in
    if at_prefix openclaw_prefix s && not (is_empty path)
    then length openclaw_prefix + length path
    else 0

-- After `[label`: `](`, the prefix, [^\)]+ and `)`.
unfoldable pub link_tail : Text → ℕ
unfolding at_prefix run
link_tail s =
    let path = run (λ c. not (nat_eq c b')')) (drop (2 + length openclaw_prefix) s) in
    if starts_with s (codes "](")
      && at_prefix openclaw_prefix (drop 2 s)
      && not (is_empty path)
      && starts_with (drop (2 + length openclaw_prefix + length path) s) (codes ")")
    then 2 + length openclaw_prefix + length path + 1
    else 0

abbrev link_length : ℕ → ℕ → ℕ
link_length label zero = 0
link_length label (suc n) = 1 + label + suc n

-- \[[^\]]*\]\(prefix[^\)]+\)
unfoldable pub link_match : Text → ℕ
unfolding link_tail run
link_match [] = 0
link_match (c ∷ s) =
    let label = length (run (λ d. not (nat_eq d b']')) s) in
    if nat_eq c b'[' then link_length label (link_tail (drop label s)) else 0

-- pattern.sub("", text): the first argument counts the characters of the current match.
unfoldable pub remove_from : (Text → ℕ) → ℕ → Text → Text
remove_from match n [] = []
remove_from match (suc n) (c ∷ s) = remove_from match n s
remove_from match zero (c ∷ s) = elim (match (c ∷ s)) [
  | zero ↦ c ∷ remove_from match zero s
  | suc n ↦ remove_from match n s
]

-- pattern.finditer(text)
unfoldable pub find_from : (Text → ℕ) → ℕ → Text → List Text
find_from match n [] = []
find_from match (suc n) (c ∷ s) = find_from match n s
find_from match zero (c ∷ s) = elim (match (c ∷ s)) [
  | zero ↦ find_from match zero s
  | suc n ↦ take (suc n) (c ∷ s) ∷ find_from match n s
]

-- `if p not in media_paths: media_paths.append(p)`
unfoldable pub add_new : List Text → Text → List Text
add_new paths p = if any (λ q. q == p) paths then paths else paths ++ p ∷ []

unfoldable pub add_all : List Text → List Text → List Text
unfolding add_new
add_all paths [] = paths
add_all paths (p ∷ ps) = add_all (add_new paths (strip p)) ps

abbrev pub not_blank : Text → Bool
not_blank t = not (is_empty (strip t))

-- payload["mediaUrls"]: none where it is no list; an item that is no text is none.
abbrev pub texts : List (Option Text) → List Text
texts [] = []
texts (none ∷ l) = texts l
texts (some t ∷ l) = let rest = texts l in if not_blank t then t ∷ rest else rest

abbrev pub listed : Option (List (Option Text)) → List Text
listed none = []
listed (some l) = texts l

abbrev pub with_single : Option Text → List Text → List Text
with_single none paths = paths
with_single (some t) paths = if not_blank t then add_new paths (strip t) else paths

unfoldable pub media_paths_of : Option (List (Option Text)) → Option Text → Text → List Text
unfolding add_all add_new find_from raw_match
media_paths_of urls single text =
    add_all (with_single single (listed urls)) (find_from raw_match zero text)

unfoldable pub clean_text : Text → Text
unfolding remove_from raw_match link_match
clean_text text = strip (remove_from raw_match zero (remove_from link_match zero text))
