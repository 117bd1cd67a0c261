-- ===== src/Mapping/Unversioned.antt =====
-- The caches where the tables have no row of the version.
use claw_mux.Base.{
  ℕ, ◌≡◌, refl, ◌≤◌, false, Option, some, none, arith, ltb, nat_eq_iff, pair_key, Text, ok,
}
use claw_mux.Base.Dict.{get}
use claw_mux.Instance.{InstanceInfo}
use claw_mux.Mapping.Providers.{validate_provider}
use claw_mux.Mapping.Database.{Database, bump_version, cache_version}
use claw_mux.Mapping.Cache.{cache_get}
use claw_mux.Mapping.Storage.{Caches, get_instance_by_identity, read_through}
use claw_mux.Mapping.Bind.{transaction}

first_version :
    (provider user uuid : Text) (info : InstanceInfo) (external role : Option Text)
    (db d : Database)
    → db.version ≡ none
    → transaction provider user uuid info external role db ≡ ok d
    → cache_version d ≡ cache_version db
unfolding transaction bump_version cache_version
first_version provider user uuid info external role db d v h = ground arith

live : (expires now : ℕ) → now ≤ expires → ltb expires now ≡ false
live expires now h = ground arith

-- Where the row of the version is missing, the first binding that commits goes unnoticed: its
-- version is the one that readers have assumed before it, and a process that has an answer in its
-- cache goes on giving it until it expires, even where the binding has replaced it.
pub first_bind_unnoticed :
    (provider user uuid : Text) (info : InstanceInfo) (external role : Option Text)
    (db d : Database) (cs : Caches) (key p : Text) (old : InstanceInfo) (ttl expires now later : ℕ)
    → db.version ≡ none
    → transaction provider user uuid info external role db ≡ ok d
    → validate_provider p ≡ ok key
    → get cs.identity (key, user) ≡ some (cache_version db, expires, old)
    → now ≤ expires
    → (get_instance_by_identity d cs p user ttl now later).1 ≡ ok old
unfolding get_instance_by_identity read_through cache_get
first_bind_unnoticed provider user uuid info external role db d cs key p old ttl expires now later v
      h k g n =
    rw
      (
        k,
        first_version provider user uuid info external role db d v h,
        g,
        live expires now n,
        (nat_eq_iff (cache_version db) (cache_version db)).1 refl,
      )
      refl
