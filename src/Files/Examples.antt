-- ===== src/Files/Examples.antt =====
-- The theorems of the file helpers at concrete inputs.
use claw_mux.Base.{false, true, Text, codes, some, none, ok, err}
use claw_mux.Files.Transfer.{Env, http}

abbrev report : Text
report = codes "/home/node/.openclaw/drafts/../report.xlsx"

-- Two files of one name: the second is renamed.
abbrev transfers : Env
transfers = record {
  workspace_base_path = codes "/workspaces";
  container_workspace_root = codes "/home/node/.openclaw/workspace";
  attachment_max_size_mb = 10;
  made = λ log. ok tt;
  info = λ log. ok (record { name = some (codes "../.a.pdf"); size = 2000; mime_type = none });
  exists = λ log path. true;
  hex6 = λ log. codes "0f0f0f";
  content = λ log. ok tt;
  stored = λ log. ok tt;
  isfile = λ path. false;
  getsize = λ path. 0;
  uploaded = λ log. err http;
}
