-- ===== src/Provisioner/Drivers.antt =====
-- `_provision_mock` and `_provision_webhook`: what the two drivers answer.
use claw_mux.Base.{
  Bool, false, Option, none, some, [], ◌++◌, is_empty, if◌then◌else◌, Text, codes, take, Result, ok,
  err,
}
use claw_mux.Web.Json.{Json, null, bool, str, obj, Fields, truthy, get, get_or, or_else, ◌>>=◌}
use claw_mux.Provisioner.Target.{Settings, Error, no_webhook, webhook_failed}

-- The values are not checked before they are used.
pub record Answer : Type 0 where
  pub instance_uuid : Json
  pub instance_url : Json
  pub device_id : Json
  pub public_key_b64 : Json
  pub private_key_b64 : Json
  pub device_token : Json
  pub gateway_token : Json
  pub role : Json
  pub workspace_seeded : Bool

-- The first `[:8]` of the user's id is in the device's.
unfoldable pub provision_mock : Text → Text → Answer
provision_mock uuid4 user = record {
  instance_uuid = str uuid4;
  instance_url = str (codes "ws://localhost:18789/ws");
  device_id = str (codes "dev-mock-" ++ take 8 user);
  public_key_b64 = str (codes "mock-public-key-b64");
  private_key_b64 = str (codes "mock-private-key-b64");
  device_token = str (codes "mock-device-token");
  gateway_token = str (codes "mock-gateway-token");
  role = null;
  workspace_seeded = false;
}

pub record Request : Type 0 where
  pub url : Text
  pub authorization : Option Text
  pub provider : Text
  pub provider_user_id : Text
  pub app_user_id : Text

abbrev pub Webhook : Type 0
Webhook = Request → Option Json

unfoldable pub request : Settings → Text → Text → Request
request s provider user = record {
  url = s.provisioning_webhook_url;
  authorization =
      if is_empty s.provisioning_webhook_token
      then none
      else some (codes "Bearer " ++ s.provisioning_webhook_token);
  provider = provider;
  provider_user_id = user;
  app_user_id = provider ++ codes ":" ++ user;
}

-- `data.get("workspace_seeded") is True`
abbrev pub is_true : Json → Bool
is_true (bool b) = b
is_true j = false

-- What is read from the response. None is an exception, a missing "instance_url" among them.
unfoldable pub parse_answer : Text → Json → Option Answer
unfolding get_or truthy
parse_answer uuid4 j = do
  uuid ← get j (codes "instance_uuid")
  url ← get j (codes "instance_url")
  creds ← get_or j (codes "credentials") (obj Fields.end)
  if truthy url
      then (do
        device_id ← get_or creds (codes "device_id") (str [])
        public_key ← get_or creds (codes "public_key_b64") (str [])
        private_key ← get_or creds (codes "private_key_b64") (str [])
        device_token ← get_or creds (codes "device_token") (str [])
        gateway_token ← get_or creds (codes "gateway_token") (str [])
        role ← get j (codes "role")
        seeded ← get j (codes "workspace_seeded")
        some (record {
          instance_uuid = or_else uuid (str uuid4);
          instance_url = url;
          device_id = device_id;
          public_key_b64 = public_key;
          private_key_b64 = private_key;
          device_token = device_token;
          gateway_token = gateway_token;
          role = role;
          workspace_seeded = is_true seeded;
        }))
      else none

abbrev pub or_failed : Option Answer → Result Error Answer
or_failed none = err webhook_failed
or_failed (some a) = ok a

-- `post` gives the decoded body of a response without an error status, and none where the request,
-- the status or the decoding raises.
unfoldable pub provision_webhook : Webhook → Text → Settings → Text → Text → Result Error Answer
unfolding parse_answer request
provision_webhook post uuid4 s provider user =
    if is_empty s.provisioning_webhook_url
    then err no_webhook
    else or_failed (post (request s provider user) >>= parse_answer uuid4)
