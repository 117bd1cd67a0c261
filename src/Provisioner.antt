-- ===== src/Provisioner.antt =====
-- Provisioning of instances (src/services/provisioner.py): the driver's answer, its validation, the
-- workspace's template, and the binding. The webhook, the disk and random identifiers are parameters.
pub mod Target
pub mod Drivers
pub mod Seed
pub mod Laws
mod Examples
use claw_mux.Base.{
  Bool, Option, none, some, ◌==◌, text_key, if◌then◌else◌, Text, codes, strip, lower, Result, ok,
  err,
}
use claw_mux.Base.Exec.{pure, raise, ◌>>=◌, ◌>>◌}
use claw_mux.Web.Json.{Json, null, str, or_else, text_of}
use claw_mux.Instance.{DeviceCredentials, InstanceInfo}
use claw_mux.Mapping.Providers.{Failure}
use claw_mux.Mapping.Database.{Database}
use claw_mux.Mapping.Storage.{Caches}
use claw_mux.Mapping.Bind.{bind_user_instance}
use claw_mux.Provisioner.Target.{
  Run, World, Error, storage, crash, unsupported_driver, Settings, check, validate_target,
}
use claw_mux.Provisioner.Drivers.{Webhook, Answer, provision_mock, provision_webhook}
use claw_mux.Provisioner.Seed.{Disk, seed_workspace_template}

-- A value that is used as a text.
abbrev pub text : Json → Run Text
text j = check (elim (text_of j) [ none ↦ err crash | some t ↦ ok t ])

-- The texts that are written to the database; a value that is no text is refused there.
abbrev pub credentials_of : Answer → Run DeviceCredentials
credentials_of a = do
  device_id ← text a.device_id
  public_key ← text a.public_key_b64
  private_key ← text a.private_key_b64
  device_token ← text a.device_token
  gateway_token ← text a.gateway_token
  pure (record {
    device_id = device_id;
    public_key_b64 = public_key;
    private_key_b64 = private_key;
    device_token = device_token;
    gateway_token = gateway_token;
  })

abbrev pub stored :
    World → Database × Caches × Result Failure InstanceInfo → Result Error InstanceInfo × World
stored w (db, caches, ok i) = (ok i, record w { db = db; caches = caches })
stored w (db, caches, err e) = (err (storage e), record w { db = db; caches = caches })

abbrev pub bind : Text → Text → Text → InstanceInfo → Text → Run InstanceInfo
bind provider user uuid info role w =
    stored w (bind_user_instance w.db w.caches provider user uuid info none (some role))

module _ (is_valid : Text → Bool) (d : Disk) (post : Webhook) (uuid4 : Text) (s : Settings) where
  abbrev pub ask_driver : Text → Text → Text → Result Error Answer
  ask_driver driver provider user =
      if driver == codes "mock"
      then ok (provision_mock uuid4 user)
      else if driver == codes "webhook"
      then provision_webhook post uuid4 s provider user
      else err (unsupported_driver driver)

  abbrev pub bind_answer : Text → Text → Text → Text → Answer → Run InstanceInfo
  bind_answer provider user uuid url a = do
    credentials ← credentials_of a
    role ← text (or_else a.role (str (codes "user")))
    bind provider user uuid (record { instance_url = url; credentials = credentials }) role

  abbrev pub seed : Text → Text → Text → Answer → Run Unit
  seed provider user uuid a =
      if a.workspace_seeded then pure tt else seed_workspace_template d s uuid provider user

  unfoldable pub provision_instance : Text → Text → Run InstanceInfo
  provision_instance provider user = do
    a ← check (ask_driver (strip (lower s.provisioning_driver)) provider user)
    uuid ← text a.instance_uuid
    url ← text a.instance_url
    check (validate_target is_valid s uuid url)
    seed provider user uuid a
    bind_answer provider user uuid url a
