-- ===== src/Files/Context.antt =====
-- What the agent is told of the attachments.

use claw_mux.Base.{ℕ, ◌/◌, List, [], ◌++◌, map, is_empty, if◌then◌else◌, Text, codes, join}

pub record DownloadedFile : Type 0 where
  pub filename : Text
  pub host_path : Text
  pub container_path : Text
  pub size_bytes : ℕ
  pub mime_type : Text

-- The decimal form of a number is a parameter.
module _ (decimal : ℕ → Text) where
  unfoldable pub context_line : DownloadedFile → Text
  context_line f =
      codes "- `"
      ++ f.filename
      ++ codes "` ("
      ++ f.mime_type
      ++ codes ", "
      ++ decimal (f.size_bytes / 1024)
      ++ codes " KB) → `"
      ++ f.container_path
      ++ codes "`"

  unfoldable pub build_attachment_context : List DownloadedFile → Text
  unfolding context_line
  build_attachment_context files =
      if is_empty files
      then []
      else codes
          "\n\n[SYSTEM: the user attached one or more files. They are available to read at the following paths:]\n"
        ++ join (codes "\n") (map context_line files)
