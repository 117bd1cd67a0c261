-- ===== src/Provisioner/Seed.antt =====
-- `_seed_workspace_template`: the template's files, copied into the workspace with the placeholders
-- replaced. The disk is a parameter: what it holds, and which calls fail.
use claw_mux.Base.{Bool, List, [], ◌∷◌, ◌==◌, text_key, if◌then◌else◌, Text, codes}
use claw_mux.Base.Exec.{pure, raise, catch, ◌>>◌}
use claw_mux.Web.Text.{replace}
use claw_mux.Files.Paths.{path_join}
use claw_mux.Provisioner.Target.{Settings, Run, crash, Write, make_dirs, write_file, copy_file}

-- f.read() of a file that is opened as UTF-8.
pub data Reading : Type 0 where
  content : Text → Reading
  not_utf8 : Reading
  unreadable : Reading

pub record Disk : Type 0 where
  pub exists : Text → Bool
  pub walk : Text → List (Text × List Text)  -- os.walk, without the lists of directories
  pub relpath : Text → Text → Text
  pub read : List Write → Text → Reading
  pub fails : List Write → Bool  -- the newest call raises

unfoldable pub fill_placeholders : Text → Text → Text → Text → Text
unfolding replace
fill_placeholders text user uuid provider =
    replace (replace (replace text (codes "{{USER_ID}}") user) (codes "{{UUID}}") uuid)
      (codes "{{PROVIDER}}") provider

module _ (d : Disk) where
  abbrev pub touch : Write → Run Unit
  touch e w =
      let disk = e ∷ w.disk in
      let w' = record w { disk = disk } in if d.fails disk then raise crash w' else pure tt w'

  abbrev pub place : (Text → Text) → Text → Text → Reading → Run Unit
  place fill source target (content t) = touch (write_file target (fill t))
  place fill source target not_utf8 = touch (copy_file source target)
  place fill source target unreadable = raise crash

  abbrev pub copy_files : (Text → Text) → Text → Text → List Text → Run Unit
  copy_files fill root target [] = pure tt
  copy_files fill root target (file ∷ files) = do
    λ w.
        place fill (path_join root file) (path_join target file)
          (d.read w.disk (path_join root file)) w
    copy_files fill root target files

  abbrev pub target_dir : Text → Text → Text → Text
  target_dir source dest root =
      let rel = d.relpath root source in if rel == codes "." then dest else path_join dest rel

  unfoldable pub copy_and_substitute :
      (Text → Text) → Text → Text → List (Text × List Text) → Run Unit
  copy_and_substitute fill source dest [] = pure tt
  copy_and_substitute fill source dest ((root, files) ∷ dirs) = do
    touch (make_dirs (target_dir source dest root))
    copy_files fill root (target_dir source dest root) files
    copy_and_substitute fill source dest dirs

  abbrev pub dest_dir : Settings → Text → Text
  dest_dir s uuid = path_join (path_join s.workspace_base_path uuid) (codes "workspace")

  -- A failure is only logged.
  unfoldable pub seed_workspace_template : Settings → Text → Text → Text → Run Unit
  unfolding copy_and_substitute fill_placeholders
  seed_workspace_template s uuid provider user =
      if d.exists s.workspace_template_path
      then (catch
          (do
            touch (make_dirs (dest_dir s uuid))
            copy_and_substitute (λ t. fill_placeholders t user uuid provider)
                s.workspace_template_path (dest_dir s uuid) (d.walk s.workspace_template_path))
          λ e. pure tt)
      else pure tt
