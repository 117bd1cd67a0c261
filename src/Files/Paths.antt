-- ===== src/Files/Paths.antt =====
-- Paths of generated files: from the container to the shared volume. `realpath` resolves symbolic
-- links on the host's disk and is a parameter.
use claw_mux.Base.{
  ℕ, zero, suc, Bool, true, false, not, ◌&&◌, ◌||◌, Option, none, some, List, [], ◌∷◌, ◌++◌,
  reverse, nat_eq, leb, if◌then◌else◌, ◌==◌, text_key, Text, codes, is_empty, starts_with,
  ends_with, split_on, join, drop, length, take,
}

abbrev pub slash : Text
slash = codes "/"

-- os.path.join(a, b)
unfoldable pub path_join : Text → Text → Text
path_join a b =
    if starts_with b slash
    then b
    else if is_empty a || ends_with a slash
    then a ++ b
    else a ++ slash ++ b

abbrev pub top_is : Text → List Text → Bool
top_is t [] = false
top_is t (c ∷ cs) = c == t

abbrev pub pop_top : List Text → List Text
pop_top [] = []
pop_top (c ∷ cs) = cs

-- One component of the loop in os.path.normpath; the components so far, the last one first.
unfoldable pub push_component : Bool → List Text → Text → List Text
push_component rooted stack c =
    if c == [] || c == codes "."
    then stack
    else if not (c == codes "..") || (not rooted && is_empty stack) || top_is (codes "..") stack
    then c ∷ stack
    else pop_top stack

unfoldable pub components : Bool → List Text → List Text → List Text
unfolding push_component
components rooted stack [] = stack
components rooted stack (c ∷ cs) = components rooted (push_component rooted stack c) cs

abbrev pub or_dot : Text → Text
or_dot [] = codes "."
or_dot (c ∷ s) = c ∷ s

-- Two leading slashes stay; three or more are one.
abbrev pub root_of : Text → Text
root_of path =
    if starts_with path (codes "//") && not (starts_with path (codes "///"))
    then codes "//"
    else if starts_with path slash
    then slash
    else []

-- os.path.normpath(path)
unfoldable pub normpath : Text → Text
unfolding components
normpath path = or_dot (
    root_of path
    ++ join slash (reverse (components (starts_with path slash) [] (split_on b'/' path))))

abbrev pub openclaw_root : Text
openclaw_root = codes "/home/node/.openclaw/"

-- Inside `base`, as a path.
abbrev pub inside : Text → Text → Bool
inside base path = path == base || starts_with path (base ++ slash)

module _ (realpath : Text → Text) (workspace_base_path : Text) where
  -- The host's path, or "" where the path is rejected.
  unfoldable pub container_path_to_host : Text → Text → Text
  unfolding path_join normpath
  container_path_to_host container_path uuid =
      let base = workspace_base_path ++ slash ++ uuid in
      let candidate = normpath (path_join base (drop (length openclaw_root) container_path)) in
      if not (starts_with container_path openclaw_root)
      then []
      else if not (inside base candidate)
      then []
      else if not (inside (realpath base) (realpath candidate))
      then []
      else candidate

-- ── The instance's UUID ──

abbrev pub is_hex : ℕ → Bool
is_hex c = (leb b'0' c && leb c b'9') || (leb b'a' c && leb c b'f') || (leb b'A' c && leb c b'F')

-- `n` hexadecimal digits at the head.
unfoldable pub hex_run : ℕ → Text → Bool
hex_run n [] = nat_eq n 0
hex_run zero (c ∷ s) = true
hex_run (suc n) (c ∷ s) = is_hex c && hex_run n s

-- _UUID_RE at the head of a text.
unfoldable pub uuid_here : Text → Bool
unfolding hex_run
uuid_here s =
    hex_run 8 s
    && starts_with (drop 8 s) (codes "-")
    && hex_run 4 (drop 9 s)
    && starts_with (drop 13 s) (codes "-")
    && hex_run 4 (drop 14 s)
    && starts_with (drop 18 s) (codes "-")
    && hex_run 4 (drop 19 s)
    && starts_with (drop 23 s) (codes "-")
    && hex_run 12 (drop 24 s)

unfoldable pub extract_uuid_from_instance_url : Text → Option Text
unfolding uuid_here
extract_uuid_from_instance_url [] = none
extract_uuid_from_instance_url (c ∷ s) =
    let rest = extract_uuid_from_instance_url s in
    if uuid_here (c ∷ s) then some (take 36 (c ∷ s)) else rest
