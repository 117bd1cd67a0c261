-- ===== src/Files/Containment.antt =====
-- Where the paths of `container_path_to_host` lead.
use claw_mux.Base.{◌≡◌, ◌⊎◌, false, List, ◌++◌, ◌==◌, text_key, Text, codes, is_empty, join, All}
use claw_mux.Files.Names.{has_slash}
use claw_mux.Files.Paths.{slash}

-- A component that names something below: neither empty, nor "." nor "..", and with no slash.
abbrev pub IsPlain : Text → Type 0
IsPlain c =
    (is_empty c ≡ false)
    × ((c == codes ".") ≡ false)
    × ((c == codes "..") ≡ false)
    × (has_slash c ≡ false)

-- Without a slash.
abbrev IsFlat : Text → Type 0
IsFlat c = has_slash c ≡ false

-- A path from the root, made of plain components.
pub record IsRooted (path : Text) : Type 0 where
  pub root : Text
  pub parts : List Text
  pub whole : path ≡ root ++ join slash parts
  pub at_root : (root ≡ slash) ⊎ (root ≡ codes "//")
  pub plain : All IsPlain parts
