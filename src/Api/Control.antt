-- ===== src/Api/Control.antt =====
-- `trigger`, `notify` and `reload_mappings`: the control plane, over the mapping storage and the router.
use claw_mux.Base.{
  ℕ, Bool, true, false, Option, none, some, List, ◌∷◌, is_empty, if◌then◌else◌, Text, strip, lower,
  Result, ok, err,
}
use claw_mux.Instance.{InstanceInfo}
use claw_mux.Mapping.Providers.{Failure, unsupported_provider, instance_not_found, integrity}
use claw_mux.Mapping.Database.{Database}
use claw_mux.Mapping.Storage.{Caches, get_instance_by_external_id, reload_cache_version}
use claw_mux.Router.World.{Env, Run}
use claw_mux.Router.Channels.{trigger_message, handle_proactive}
use claw_mux.Api.Guard.{compare_digest, Reply, refused, crashed, done}

-- A call of the router that a background task makes.
pub data Task : Type 0 where
  trigger_task :
      (user : Text)
      → InstanceInfo
      → (text : Text) → (session : Option Text) → (provider : Text) → Task
  proactive_task : (user text provider : Text) → Task

unfoldable pub run_task : Env → Task → Run Unit
run_task env (trigger_task user info text session provider) =
    trigger_message env user info text session provider
run_task env (proactive_task user text provider) = handle_proactive env user text provider

-- The process: the storage's caches, and the tasks that were started, the newest first.
pub record Process : Type 0 where
  pub caches : Caches
  pub tasks : List Task

pub record Body : Type 0 where
  pub external_user_id : Text
  pub provider : Text
  pub text : Text
  pub session_key : Option Text

-- The time of the storage's lookup, and the settings.
pub record Context : Type 0 where
  pub db : Database
  pub api_token : Text
  pub ttl : ℕ
  pub now : ℕ
  pub later : ℕ

abbrev pub Endpoint : Type 0
Endpoint = Process → Reply (Unit {0}) × Process

abbrev compared : Endpoint → Option Bool → Endpoint
compared body none p = (crashed, p)
compared body (some true) p = body p
compared body (some false) p = (refused 401, p)

-- `if not settings.api_token or not secrets.compare_digest(...)`
unfoldable pub authorized : Context → Text → Endpoint → Endpoint
authorized c token body p =
    if is_empty c.api_token
    then (refused 401, p)
    else compared body (compare_digest token c.api_token) p

abbrev pub start : Task → Endpoint
start t p = (done tt, record p { tasks = t ∷ p.tasks })

abbrev pub resolved :
    (Text × InstanceInfo → Task)
    → Process
    → Caches × Result Failure (Text × InstanceInfo)
    → Reply (Unit {0}) × Process
resolved task p (cs, ok r) = start (task r) (record p { caches = cs })
resolved task p (cs, err (unsupported_provider q)) = (refused 400, record p { caches = cs })
resolved task p (cs, err (instance_not_found k)) = (refused 404, record p { caches = cs })
resolved task p (cs, err integrity) = (crashed, record p { caches = cs })

abbrev pub resolve : Context → Body → (Text × InstanceInfo → Task) → Endpoint
resolve c req task p = resolved task p (
    get_instance_by_external_id c.db p.caches req.external_user_id (lower (strip req.provider))
      c.ttl c.now c.later)

unfoldable pub trigger : Context → Text → Body → Endpoint
unfolding authorized
trigger c token req =
    authorized c token (
      resolve c req λ r. trigger_task r.0 r.1 req.text req.session_key (lower (strip req.provider)))

unfoldable pub notify : Context → Text → Body → Endpoint
unfolding authorized
notify c token req =
    authorized c token (resolve c req λ r. proactive_task r.0 req.text (lower (strip req.provider)))

abbrev pub reload : Context → Endpoint
reload c p = (done tt, record p { caches = (reload_cache_version c.db p.caches).0 })

unfoldable pub reload_mappings : Context → Text → Endpoint
unfolding authorized
reload_mappings c token = authorized c token (reload c)
