-- ===== src/Provisioner/Examples.antt =====
-- Provisioning at concrete inputs: a webhook that answers with an address on an allowed host.
use claw_mux.Base.{
  ◌≡◌, refl, Bool, true, false, Option, none, some, [], ◌∷◌, codes, ok, err, Result, list_eq, strip,
  lower, starts_with, split_on, ends_with, is_space, lower_char, lstrip,
}
use claw_mux.Base.Dict.{get, put}
use claw_mux.Base.Hoare.{Post}
use claw_mux.Web.Json.{find_field, get_or, truthy, text_of, Json, str, bool, obj, field, end}
use claw_mux.Web.Text.{
  split_csv, break_at, lstrip_chars, replace, replace_from, rstrip_chars, strip_chars,
}
use claw_mux.Web.Urls.{urlparse, after_at, clean, host_of, netloc_of, split_scheme}
use claw_mux.Web.Uuid.{is_uuid, is_digits, is_hex_digit, is_int16}
use claw_mux.Instance.{InstanceInfo}
use claw_mux.Mapping.Providers.{validate_provider}
use claw_mux.Mapping.Database.{user_by_external, bump_version, identity_of}
use claw_mux.Mapping.Bind.{
  bind_user_instance, transaction, taken, upsert_identity, upsert_instance, upsert_user,
  upsert_user_instance,
}
use claw_mux.Mapping.Storage.{empty_caches}
use claw_mux.Provisioner.Target.{Settings, Error, World, validate_target, allowed_hosts}
use claw_mux.Provisioner.Drivers.{Request, request, parse_answer, provision_webhook}
use claw_mux.Provisioner.Seed.{Disk, content}
use claw_mux.Provisioner.{provision_instance}
use claw_mux.Provisioner.Laws.{Provisioned, provision_exact}

abbrev settings : Settings
settings = record {
  provisioning_driver = codes "Webhook";
  provisioning_webhook_url = codes "http://orchestrator/provision";
  provisioning_webhook_token = [];
  provisioning_allowed_instance_hosts = codes "gw-1, gw-2";
  workspace_template_path = codes "/template";
  workspace_base_path = codes "/workspaces";
}

abbrev credentials : Json
credentials = obj (
    field (codes "device_id") (str (codes "dev"))
      (field (codes "device_token") (str (codes "tok")) end))

abbrev body : Json
body = obj (
    field (codes "instance_uuid") (str (codes "12345678-1234-5678-1234-567812345678")) (
      field (codes "instance_url") (str (codes "ws://GW-1:18789/ws")) (
        field (codes "credentials") credentials
          (field (codes "workspace_seeded") (bool true) end))))

abbrev post : Request → Option Json
post r = some body

abbrev disk : Disk
disk = record {
  exists = λ path. true;
  walk = λ path. (codes "/template", codes "a.md" ∷ []) ∷ [];
  relpath = λ path from. codes ".";
  read = λ log path. content (codes "Hello {{USER_ID}}");
  fails = λ log. false;
}

abbrev start : World
start = record {
  db = record {
    instance_ = [];
    app_user = [];
    user_identity = [];
    user_instance = [];
    user_channel = [];
    version = none;
  };
  caches = empty_caches;
  disk = [];
}

abbrev is_ok : Result Error InstanceInfo → Bool
is_ok (ok i) = true
is_ok (err e) = false

provision_exact_example :
    Post
      (Provisioned (λ t. false) settings (codes "slack") (codes "ann") start.db)
      (λ e w'. w'.db ≡ start.db)
      (provision_instance (λ t. false) disk post [] settings (codes "slack") (codes "ann") start)
provision_exact_example =
    provision_exact (λ t. false) disk post [] settings (codes "slack") (codes "ann") start

provision_ok :
    is_ok
      (provision_instance (λ t. false) disk post [] settings (codes "slack") (codes "ann") start).0
    ≡ true
unfolding provision_instance list_eq strip lower provision_webhook text_of validate_target is_uuid
    starts_with urlparse allowed_hosts split_csv split_on bind_user_instance validate_provider
    transaction get user_by_external put ends_with is_space lower_char lstrip taken upsert_identity
    upsert_instance upsert_user upsert_user_instance bump_version identity_of parse_answer request
    find_field get_or truthy break_at lstrip_chars replace replace_from rstrip_chars strip_chars
    after_at clean host_of netloc_of split_scheme is_digits is_hex_digit is_int16
provision_ok = refl
