-- ===== src/Files/Transfer.antt =====
-- `FileManager`: downloads from Mattermost into a workspace, and uploads from it. The HTTP client and
-- the disk are parameters: how a call ends is a function of the calls before it.
use claw_mux.Base.{
  ℕ, ◌*◌, Bool, not, ◌||◌, Option, none, some, List, [], ◌∷◌, ◌++◌, any, nat_eq, ltb, is_empty,
  if◌then◌else◌, Text, codes, Result,
}
use claw_mux.Base.Exec.{Exec, pure, raise, modify, catch, ◌>>=◌, ◌>>◌}
use claw_mux.Files.Paths.{path_join}
use claw_mux.Files.Names.{has_slash, basename, sanitize_filename}
use claw_mux.Files.Context.{DownloadedFile}

pub data Effect : Type 0 where
  make_dirs : Text → Effect
  get_info : (file_id : Text) → Effect
  get_content : (file_id : Text) → Effect
  open_file : (path : Text) → Effect  -- for writing
  chmod : (path : Text) → Effect
  upload : (filename channel : Text) → Effect

-- An httpx.HTTPError, or any other exception.
pub data Failure : Type 0 where
  http other : Failure

-- The metadata of a file: a missing name is none.
pub record Meta : Type 0 where
  pub name : Option Text
  pub size : ℕ
  pub mime_type : Option Text

pub record Env : Type 0 where
  pub workspace_base_path : Text
  pub container_workspace_root : Text
  pub attachment_max_size_mb : ℕ
  pub made : List Effect → Result Failure (Unit {0})
  pub info : List Effect → Result Failure Meta
  pub exists : List Effect → Text → Bool
  pub hex6 : List Effect → Text  -- uuid4().hex[:6]
  pub content : List Effect → Result Failure (Unit {0})  -- the response and its status
  pub stored : List Effect → Result Failure (Unit {0})  -- the transfer of the body to the file
  pub isfile : Text → Bool
  pub getsize : Text → ℕ
  pub uploaded : List Effect → Result Failure Text  -- reading the file, the request, the id in the response

-- The last dot and what follows it.
unfoldable pub last_dot : Text → Text × Text
last_dot [] = ([], [])
last_dot (c ∷ s) =
    let (before, ext) = last_dot s in
    if not (is_empty ext)
    then (c ∷ before, ext)
    else if nat_eq c b'.'
    then ([], c ∷ s)
    else (c ∷ s, [])

-- os.path.splitext: leading dots of a name do not begin an extension.
unfoldable pub splitext : Text → Text × Text
unfolding last_dot basename
splitext s =
    let (before, ext) = last_dot s in
    if has_slash ext || not (any (λ c. not (nat_eq c b'.')) (basename before))
    then (s, [])
    else (before, ext)

abbrev pub or_text : Option Text → Text → Text
or_text none d = d
or_text (some t) d = if is_empty t then d else t

abbrev pub or_default : Option Text → Text → Text
or_default none d = d
or_default (some t) d = t

module _ (env : Env) where
  abbrev pub Run : Type 0 → Type 0
  Run A = Exec (List Effect) Failure A

  abbrev pub call : {A : Type 0} → Effect → (List Effect → Result Failure A) → Run A
  call e answer log = (answer (e ∷ log), e ∷ log)

  abbrev pub note : Effect → Run (Unit {0})
  note e = modify λ log. e ∷ log

  abbrev pub max_bytes : ℕ
  max_bytes = env.attachment_max_size_mb * 1024 * 1024

  abbrev pub host_dir : Text → Text
  host_dir uuid = env.workspace_base_path ++ codes "/" ++ uuid ++ codes "/workspace/downloads"

  -- A name that is not taken, for one that is.
  unfoldable pub renamed : Text → Text → Text
  unfolding splitext
  renamed filename hex = let (base, ext) = splitext filename in base ++ codes "_" ++ hex ++ ext

  abbrev pub free_name : Text → Text → List Effect → Text
  free_name dir filename log =
      if env.exists log (path_join dir filename) then renamed filename (env.hex6 log) else filename

  abbrev pub file_of : Text → Meta → Text → DownloadedFile
  file_of dir meta filename = record {
    filename = filename;
    host_path = path_join dir filename;
    container_path = env.container_workspace_root ++ codes "/downloads/" ++ filename;
    size_bytes = meta.size;
    mime_type = or_default meta.mime_type (codes "application/octet-stream");
  }

  abbrev pub store : Text → Text → Meta → Text → Run (Option DownloadedFile)
  store file_id dir meta filename = do
    call (get_content file_id) env.content
    call (open_file (path_join dir filename)) env.stored
    note (chmod (path_join dir filename))
    pure (some (file_of dir meta filename))

  abbrev pub clean_name : Text → Meta → Text
  clean_name file_id meta = sanitize_filename (or_text meta.name file_id) file_id

  -- None for a file that is too large by its metadata. The body has no limit, and opening follows
  -- the links of the disk.
  unfoldable pub download_one : Text → Text → Run (Option DownloadedFile)
  unfolding renamed
  download_one file_id dir = do
    meta ← call (get_info file_id) env.info
    if ltb max_bytes meta.size
        then pure none
        else (λ log. store file_id dir meta (free_name dir (clean_name file_id meta) log) log)

  -- `except httpx.HTTPError`: the file is skipped.
  abbrev pub skipped : Failure → Run (Option DownloadedFile)
  skipped http = pure none
  skipped other = raise other

  abbrev pub with_file : Option DownloadedFile → List DownloadedFile → List DownloadedFile
  with_file none files = files
  with_file (some f) files = f ∷ files

  unfoldable pub download_all : Text → List Text → Run (List DownloadedFile)
  unfolding download_one
  download_all dir [] = pure []
  download_all dir (id ∷ ids) = do
    file ← catch (download_one id dir) skipped
    files ← download_all dir ids
    pure (with_file file files)

  unfoldable pub download_attachments : List Text → Text → Run (List DownloadedFile)
  unfolding download_all
  download_attachments ids uuid =
      if is_empty ids
      then pure []
      else do call (make_dirs (host_dir uuid)) env.made; download_all (host_dir uuid) ids

  abbrev pub found : Text → Run (Option Text)
  found id = pure (some id)

  abbrev pub not_uploaded : Failure → Run (Option Text)
  not_uploaded http = pure none
  not_uploaded other = raise other

  unfoldable pub upload_to_mattermost : Text → Text → Run (Option Text)
  upload_to_mattermost path channel =
      if not (env.isfile path)
      then pure none
      else if ltb max_bytes (env.getsize path)
      then pure none
      else catch (do id ← call (upload (basename path) channel) env.uploaded; found id) not_uploaded
