-- ===== src/Provisioner/Target.antt =====
-- `_validate_provisioned_target`, with the settings and the errors of provisioning.
use claw_mux.Base.{
  Bool, not, ◌||◌, Option, none, some, List, map, any, is_empty, if◌then◌else◌, ◌==◌, text_key,
  Text, codes, lower, Result, ok, err,
}
use claw_mux.Base.Exec.{Exec}
use claw_mux.Web.Text.{split_csv}
use claw_mux.Web.Urls.{urlparse}
use claw_mux.Web.Uuid.{is_uuid}
use claw_mux.Mapping.Providers.{Failure}
use claw_mux.Mapping.Database.{Database}
use claw_mux.Mapping.Storage.{Caches}

pub record Settings : Type 0 where
  pub provisioning_driver : Text
  pub provisioning_webhook_url : Text
  pub provisioning_webhook_token : Text
  pub provisioning_allowed_instance_hosts : Text
  pub workspace_template_path : Text
  pub workspace_base_path : Text

-- A ProvisioningError by what it says; an error of the storage; any other exception.
pub data Error : Type 0 where
  unsupported_driver : Text → Error
  no_webhook webhook_failed : Error
  invalid_uuid : Text → Error
  scheme_not_allowed no_host : Error
  host_not_allowed : Text → Error
  storage : Failure → Error
  crash : Error

-- What was done to the disk.
pub data Write : Type 0 where
  make_dirs : Text → Write
  write_file : (path content : Text) → Write
  copy_file : (source target : Text) → Write

pub record World : Type 0 where
  pub db : Database
  pub caches : Caches
  pub disk : List Write  -- the newest first

abbrev pub Run : Type 0 → Type 0
Run A = Exec World Error A

unfoldable pub allowed_hosts : Settings → List Text
allowed_hosts s = map lower (split_csv s.provisioning_allowed_instance_hosts)

abbrev pub is_allowed_host : Settings → Text → Bool
is_allowed_host s host =
    let allowed = allowed_hosts s in is_empty allowed || any (λ h. h == lower host) allowed

abbrev pub is_ws : Text → Bool
is_ws scheme = scheme == codes "ws" || scheme == codes "wss"

abbrev pub check_url : Settings → Option (Text × Text) → Result Error (Unit {0})
check_url s none = err crash
check_url s (some (scheme, host)) =
    if not (is_ws scheme)
    then err scheme_not_allowed
    else if is_empty host
    then err no_host
    else if not (is_allowed_host s host)
    then err (host_not_allowed host)
    else ok tt

-- `is_valid` is the check of `urlparse` for unusual hosts.
unfoldable pub validate_target : (Text → Bool) → Settings → Text → Text → Result Error (Unit {0})
validate_target is_valid s uuid url =
    if not (is_uuid uuid) then err (invalid_uuid uuid) else check_url s (urlparse is_valid url)

abbrev pub check : {A : Type 0} → Result Error A → Run A
check r w = (r, w)
