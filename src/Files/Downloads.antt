-- ===== src/Files/Downloads.antt =====
-- Where downloads are written.
use claw_mux.Base.{
  leb, ◌≡◌, true, false, Option, none, some, List, [], ◌∷◌, ◌++◌, is_empty, ◌⊎◌, Text, codes,
}
use claw_mux.Base.Exec.{◌>>◌}
use claw_mux.Base.Hoare.{Triple}
use claw_mux.Files.Paths.{path_join}
use claw_mux.Files.Names.{has_slash}
use claw_mux.Files.Context.{DownloadedFile}
use claw_mux.Files.Sanitized.{is_hidden}
use claw_mux.Files.Transfer.{Effect, open_file, chmod, Env, Run, max_bytes, renamed}

-- One component of a path, and neither "." nor "..".
pub record IsName (t : Text) : Type 0 where
  pub filled : is_empty t ≡ false
  pub flat : has_slash t ≡ false
  pub visible : is_hidden t ≡ false

module _ (env : Env) (dir : Text) where
  -- A path is a name in the directory.
  abbrev pub IsInside : Text → Type 0
  IsInside path = (name : Text) × (path ≡ path_join dir name) × IsName name

  -- Where the content is asked for behind the log, the disk does not have the path; or it has it
  -- under a name, and the path is that name with six more characters.
  abbrev pub IsFreeAt : Text → List Effect → Type 0
  IsFreeAt path log =
      (env.exists log path ≡ false)
      ⊎ ((name : Text) × (env.exists log (path_join dir name) ≡ true)
          × (path ≡ path_join dir (renamed env name (env.hex6 log))))

  -- The request of the content is between the look at the disk and the opening.
  abbrev pub IsFree : Text → List Effect → Type 0
  IsFree path [] = ⊥
  IsFree path (e ∷ log) = IsFreeAt path log

  -- What an effect behind a log does to the disk.
  abbrev pub IsLocal : Effect → List Effect → Type 0
  IsLocal (open_file path) log = IsInside path × IsFree path log
  IsLocal (chmod path) log = IsInside path
  IsLocal e log = Unit

  abbrev pub AllLocal : List Effect → Type 0
  AllLocal [] = Unit
  AllLocal (e ∷ log) = IsLocal e log × AllLocal log

  -- What a download that returns says of its file.
  abbrev pub IsDownload : DownloadedFile → Type 0
  IsDownload f =
      IsName f.filename
      × (f.host_path ≡ path_join dir f.filename)
      × (f.container_path ≡ env.container_workspace_root ++ codes "/downloads/" ++ f.filename)
      × (leb f.size_bytes (max_bytes env) ≡ true)

  abbrev Inv : List Effect → Type 0
  Inv log = AllLocal log

  abbrev IsFile : Option DownloadedFile → Type 0
  IsFile none = Unit
  IsFile (some f) = IsDownload f

  abbrev Gives : {A : Type 0} → Run env A → (A → Type 0) → Type 0
  Gives m P = Triple Inv m (λ a log. P a × Inv log) (λ e. Inv)
