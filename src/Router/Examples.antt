-- ===== src/Router/Examples.antt =====
-- The theorems of the router at concrete inputs.
use claw_mux.Base.{
  List, count_if, ◌≡◌, refl, false, some, none, [], ◌∷◌, Text, codes, text_key, list_eq, ok, err,
  strip, lower, lstrip,
}
use claw_mux.Base.Dict.{get}
use claw_mux.Router.World.{
  reply, dm, persist, Env, World, not_mapped, io_error, ChannelEvent, get_adapter,
  registered_adapter, identity_key,
}
use claw_mux.Instance.{InstanceInfo}
use claw_mux.Files.Paths.{extract_uuid_from_instance_url}
use claw_mux.Router.Channels.{handle_proactive, on_proactive}
use claw_mux.Router.Event.{handle_event, deliver, upload_for}
use claw_mux.Router.Stream.{updater, Action, draft, call_ends, run}
use claw_mux.Router.Throttled.{InTurn, Spaced, readings, run-Throttled}
use claw_mux.Router.Delivery.{typing_tasks, requests, handle_event_typing, handle_event_unmapped}
use claw_mux.Router.Shown.{shows, after_upload, deliver_once}
use claw_mux.Router.Remembered.{handle_event_remembers}
use claw_mux.Router.Misrouted.{calls_of, on_proactive-calls}
use claw_mux.Router.Proactive.{proactive_leaves_cached_channel}

abbrev slack : Text
slack = codes "slack"

abbrev ann : Text
ann = codes "ann"

-- Every call succeeds; nobody has an instance.
abbrev env : Env
env = record {
  registry = (slack, 1) ∷ [];
  mattermost = none;
  has_files = false;
  has_dify = false;
  enable_auto_provisioning = false;
  phrase = λ log. codes "Working";
  decimal = λ n. codes "0";
  realpath = λ path. path;
  workspace_base_path = codes "/workspaces";
  send_reply = λ log. ok (codes "p1");
  update_reply = λ log. ok tt;
  send_post_with_files = λ log. ok tt;
  get_or_create_dm_channel = λ log. ok (codes "D1");
  get_cached_info = λ user log. none;
  get_instance_by_identity = λ log. not_mapped;
  remember_channel = λ log. ok tt;
  get_channel = λ log. ok (some (codes "team"));
  provision_instance = λ log. err (codes "no space");
  send_message = λ log. ok (codes "Hello", []);
  chat = λ log. ok (codes "Hello");
  download_attachments = λ log. io_error;
  upload_to_mattermost = λ log. ok none;
}

abbrev question : ChannelEvent
question = record {
  provider = slack;
  user_id = ann;
  channel_id = codes "news";
  text = codes "What is new?";
  root_id = [];
  file_ids = [];
}

abbrev start : World
start = record { user_channels = []; log = [] }

-- Ann's last message came from the channel "news".
abbrev known : World
known = record { user_channels = (codes "slack:ann", codes "news") ∷ []; log = [] }

handle_event_typing_example :
    typing_tasks (handle_event env question start).1.log ≡ typing_tasks start.log
handle_event_typing_example = handle_event_typing env question start

handle_event_remembers_example :
    get (handle_event env question start).1.user_channels (identity_key slack ann)
    ≡ some (codes "news")
unfolding get_adapter registered_adapter get strip lower lstrip list_eq
handle_event_remembers_example = handle_event_remembers env question 1 start refl

handle_event_unmapped_example :
    requests (handle_event env question start).1.log ≡ requests start.log
handle_event_unmapped_example =
    handle_event_unmapped env question start (λ t. refl) (λ t. refl) refl

proactive_leaves_cached_channel_example :
    ((handle_proactive env (identity_key slack ann) (codes "News") slack known).1.log
      ≡ reply 1 (codes "D1") (codes "News") [] ∷ persist slack ann (codes "D1") ∷ dm 1 ann ∷ [])
    × (get
          (handle_proactive env (identity_key slack ann) (codes "News") slack known).1.user_channels
          (identity_key slack ann)
        ≡ some (codes "D1"))
unfolding get_adapter registered_adapter get strip lower lstrip list_eq identity_key
proactive_leaves_cached_channel_example =
    proactive_leaves_cached_channel env slack ann (codes "News") (codes "news") (codes "D1") 1 known
      refl refl refl refl refl refl

-- The second and the third draft wait for the first call; the third is early by then.
abbrev drafts : List Action
drafts =
    draft 900 (codes "He")
    ∷ draft 1700 (codes "Hel")
    ∷ draft 1800 (codes "Hello")
    ∷ call_ends
    ∷ call_ends
    ∷ []

run-Throttled_example :
    let u = run drafts (updater (codes "p1") 800) in
    InTurn u.locked u.calls × Spaced 800 (readings u.calls) × (u.locked ≡ false → u.waiters ≡ [])
run-Throttled_example = run-Throttled (codes "p1") 800 drafts

abbrev home : InstanceInfo
home = record {
  instance_url = codes "wss://host/ab3e1c64-0000-4000-8000-00000000000a";
  credentials = record {
    device_id = codes "d";
    public_key_b64 = codes "p";
    private_key_b64 = codes "k";
    device_token = codes "t";
    gateway_token = codes "g";
  };
}

deliver_once_example :
    count_if
      (shows (codes "Done"))
      (deliver env question 1 home
        (codes "p1")
        (codes "Done")
        (codes "/home/node/.openclaw/a.pdf" ∷ [])
        start).1.log
    ≡ after_upload
        (upload_for env question 1
          (extract_uuid_from_instance_url home.instance_url)
          (codes "/home/node/.openclaw/a.pdf" ∷ [])
          start).0
        (count_if (shows (codes "Done")) start.log)
deliver_once_example =
    deliver_once env question 1 home (codes "p1") (codes "Done")
      (codes "/home/node/.openclaw/a.pdf" ∷ []) start refl

-- Ann is a user of Slack (adapter 1), and the message goes to Mattermost (adapter 2).
abbrev both : Env
both = record env { mattermost = some 2 }

on_proactive-calls_example :
    calls_of 1 (on_proactive both (identity_key slack ann) (codes "News") start).1.log ≡ 0
unfolding get_adapter registered_adapter get strip lower lstrip list_eq calls_of
on_proactive-calls_example =
    on_proactive-calls both (identity_key slack ann) (codes "News") 1 (λ e. cc) start
