-- ===== src/Instance.antt =====
-- The credentials and the address of an OpenClaw instance (src/services/mapping.py).
use claw_mux.Base.{Text}

pub record DeviceCredentials : Type 0 where
  pub device_id : Text
  pub public_key_b64 : Text
  pub private_key_b64 : Text
  pub device_token : Text
  pub gateway_token : Text

pub record InstanceInfo : Type 0 where
  pub instance_url : Text
  pub credentials : DeviceCredentials
