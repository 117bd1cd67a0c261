-- ===== src/Mapping/Storage.antt =====
-- The operations of `MappingStorage`. One database is shared; each process has its own caches.
-- `now` and `later` are the clock's readings, and `ttl` is mapping_cache_ttl_sec.
use claw_mux.Base.{
  ℕ, ◌+◌, Option, none, some, [], ◌++◌, text_key, pair_key, Text, codes, Result, ok, err,
}
use claw_mux.Base.Dict.{get, put}
use claw_mux.Instance.{InstanceInfo}
use claw_mux.Mapping.Providers.{Failure, instance_not_found, validate_provider}
use claw_mux.Mapping.Database.{Database, select_by_identity, select_by_external, cache_version}
use claw_mux.Mapping.Cache.{Cache, cache_get, cache_put, drop_stale}

pub record Caches : Type 0 where
  pub identity : Cache InstanceInfo
  pub external : Cache (Text × InstanceInfo)

abbrev pub empty_caches : Caches
empty_caches = record { identity = []; external = [] }

-- f"{provider}:{provider_user_id}"
abbrev pub identity_key : Text → Text → Text
identity_key provider user = provider ++ codes ":" ++ user

module _ {V : Type 0} where
  abbrev pub fetched :
      Cache V → Text × Text → ℕ → ℕ → Failure → Option V → Cache V × Result Failure V
  fetched cache key version expires failure none = (cache, err failure)
  fetched cache key version expires failure (some v) = (cache_put cache key version v expires, ok v)

  abbrev pub cached_or :
      (Cache V → Cache V × Result Failure V) → Cache V × Option V → Cache V × Result Failure V
  cached_or fetch (cache, some v) = (cache, ok v)
  cached_or fetch (cache, none) = fetch cache

  -- A read through the cache: the version first, then the cache, then the tables.
  unfoldable pub read_through :
      Database
      → (Database → Text × Text → Option V)
      → Cache V
      → Text × Text
      → Failure
      → ℕ
      → ℕ
      → ℕ
      → Cache V × Result Failure V
  read_through db select cache key failure ttl now later =
      let version = cache_version db in
      cached_or (λ c. fetched c key version (later + ttl) failure (select db key))
        (cache_get cache key version now)

abbrev pub with_identity :
    Caches → Cache InstanceInfo × Result Failure InstanceInfo → Caches × Result Failure InstanceInfo
with_identity cs (c, r) = (record cs { identity = c }, r)

abbrev pub with_external :
    Caches
    → Cache (Text × InstanceInfo) × Result Failure (Text × InstanceInfo)
    → Caches × Result Failure (Text × InstanceInfo)
with_external cs (c, r) = (record cs { external = c }, r)

abbrev pub by_identity :
    Database
    → Caches
    → Text
    → ℕ
    → ℕ
    → ℕ
    → Result Failure Text
    → Caches × Result Failure InstanceInfo
by_identity db cs user ttl now later (err e) = (cs, err e)
by_identity db cs user ttl now later (ok provider) = with_identity cs (
    read_through db select_by_identity cs.identity (provider, user)
      (instance_not_found (identity_key provider user)) ttl now later)

unfoldable pub get_instance_by_identity :
    Database → Caches → Text → Text → ℕ → ℕ → ℕ → Caches × Result Failure InstanceInfo
unfolding read_through
get_instance_by_identity db cs provider user ttl now later =
    by_identity db cs user ttl now later (validate_provider provider)

abbrev pub by_external :
    Database
    → Caches
    → Text
    → ℕ
    → ℕ
    → ℕ
    → Result Failure Text
    → Caches × Result Failure (Text × InstanceInfo)
by_external db cs external ttl now later (err e) = (cs, err e)
by_external db cs external ttl now later (ok provider) = with_external cs (
    read_through db select_by_external cs.external (external, provider)
      (instance_not_found (identity_key provider external)) ttl now later)

unfoldable pub get_instance_by_external_id :
    Database → Caches → Text → Text → ℕ → ℕ → ℕ → Caches × Result Failure (Text × InstanceInfo)
unfolding read_through
get_instance_by_external_id db cs external provider ttl now later =
    by_external db cs external ttl now later (validate_provider provider)

unfoldable pub reload_cache_version : Database → Caches → Caches × ℕ
unfolding drop_stale
reload_cache_version db cs =
    let version = cache_version db in
    (
      record {
        identity = drop_stale version cs.identity;
        external = drop_stale version cs.external;
      },
      version,
    )

-- The upsert of the last known channel.
unfoldable pub remember_channel : Database → Text → Text → Text → Result Failure Database
remember_channel db provider user channel = elim (validate_provider provider) [
  | err e ↦ err e
  | ok p ↦ ok (record db { user_channel = put db.user_channel (p, user) channel })
]

unfoldable pub get_channel : Database → Text → Text → Result Failure (Option Text)
get_channel db provider user = elim (validate_provider provider) [
  | err e ↦ err e
  | ok p ↦ ok (get db.user_channel (p, user))
]
