-- ===== src/Mapping/Bind.antt =====
-- `bind_user_instance`: five upserts in one transaction. A violated constraint rolls all of it back.
use claw_mux.Base.{
  Bool, false, not, ◌&&◌, ◌||◌, Option, none, some, [], ◌∷◌, if◌then◌else◌, ◌==◌, text_key,
  pair_key, Text, is_empty, is_some, Result, ok, err,
}
use claw_mux.Base.Dict.{Dict, get, put, has}
use claw_mux.Instance.{InstanceInfo}
use claw_mux.Mapping.Providers.{Failure, integrity, validate_provider}
use claw_mux.Mapping.Database.{AppUser, Database, identity_of, user_by_external, bump_version}
use claw_mux.Mapping.Storage.{Caches, empty_caches, identity_key}

abbrev pub Try : Type 0
Try = Result Failure Database

infixl 5 ◌>>=◌
abbrev pub ◌>>=◌ : Try → (Database → Try) → Try
ok db >>= f = f db
err e >>= f = err e

-- 1. The instance, with its address and credentials.
unfoldable pub upsert_instance : Text → InstanceInfo → Database → Try
upsert_instance uuid info db = ok (record db { instance_ = put db.instance_ uuid info })

abbrev pub filled : AppUser → Option Text → AppUser
filled u (some r) = elim u.role [ none ↦ record u { role = some r } | some q ↦ u ]
filled u none = u

abbrev pub user_upsert : Text → Text → Option Text → Database → Option AppUser → Try
user_upsert id external role db none =
    if is_some (user_by_external db.app_user external)
    then err integrity
    else ok (record db {
      app_user = put db.app_user id (record { external_user_id = some external; role = role });
    })
user_upsert id external role db (some u) =
    ok (record db { app_user = put db.app_user id (filled u role) })

-- 2. The user: a role that is set already is kept.
unfoldable pub upsert_user : Text → Text → Option Text → Database → Try
upsert_user id external role db = user_upsert id external role db (get db.app_user id)

-- 3. The identity, unless the user has one at the provider.
unfoldable pub upsert_identity : Text → Text → Text → Database → Try
upsert_identity id provider user db =
    if is_some (identity_of db.user_identity id provider)
    then ok db
    else if has db.user_identity (provider, user)
    then err integrity
    else ok (record db { user_identity = put db.user_identity (provider, user) id })

-- Another user holds the instance.
unfoldable pub taken : Dict Text Text → Text → Text → Bool
taken [] id uuid = false
taken ((u, i) ∷ rows) id uuid = (i == uuid && not (u == id)) || taken rows id uuid

-- 4. The user's instance.
unfoldable pub upsert_user_instance : Text → Text → Database → Try
upsert_user_instance id uuid db =
    if taken db.user_instance id uuid
    then err integrity
    else ok (record db { user_instance = put db.user_instance id uuid })

abbrev pub or_default : Option Text → Text → Text
or_default none d = d
or_default (some t) d = if is_empty t then d else t

-- The transaction.
unfoldable pub transaction :
    Text → Text → Text → InstanceInfo → Option Text → Option Text → Database → Try
unfolding upsert_instance upsert_user upsert_identity upsert_user_instance
transaction provider user uuid info external role db =
    let id = identity_key provider user in
    upsert_instance uuid info db
    >>= upsert_user id (or_default external id) role
    >>= upsert_identity id provider user
    >>= upsert_user_instance id uuid
    >>= λ d. ok (bump_version d)

abbrev pub bound :
    Database → Caches → InstanceInfo → Try → Database × Caches × Result Failure InstanceInfo
bound db cs info (err e) = (db, cs, err e)
bound db cs info (ok d) = (d, empty_caches, ok info)

abbrev pub bind_to :
    Database
    → Caches
    → Text
    → Text
    → InstanceInfo
    → Option Text
    → Option Text
    → Result Failure Text
    → Database × Caches × Result Failure InstanceInfo
bind_to db cs user uuid info external role (err e) = (db, cs, err e)
bind_to db cs user uuid info external role (ok provider) =
    bound db cs info (transaction provider user uuid info external role db)

-- The database, this process's caches and the outcome.
unfoldable pub bind_user_instance :
    Database
    → Caches
    → Text
    → Text
    → Text
    → InstanceInfo
    → Option Text
    → Option Text
    → Database × Caches × Result Failure InstanceInfo
bind_user_instance db cs provider user uuid info external role =
    bind_to db cs user uuid info external role (validate_provider provider)
