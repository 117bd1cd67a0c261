-- ===== src/Mapping/Database.antt =====
-- The tables, each by its primary key. `user_instance` is kept by its unique user id; its primary
-- key, the instance, is a constraint below. The columns that tell when a row was made are left out.
use claw_mux.Base.{
  ℕ, suc, Bool, false, ◌&&◌, Option, none, some, [], ◌∷◌, if◌then◌else◌, ◌==◌, text_key, pair_key,
  Text,
}
use claw_mux.Base.Dict.{Dict, get, has}
use claw_mux.Instance.{InstanceInfo}

pub record AppUser : Type 0 where
  pub external_user_id : Option Text
  pub role : Option Text

pub record Database : Type 0 where
  pub instance_ : Dict Text InstanceInfo
  pub app_user : Dict Text AppUser
  pub user_identity : Dict (Text × Text) Text  -- (provider, provider_user_id) → user_id
  pub user_instance : Dict Text Text  -- user_id → instance_uuid
  pub user_channel : Dict (Text × Text) Text
  pub version : Option ℕ  -- the row of mapping_state

abbrev pub then_ {ℓ κ} : {A : Type ℓ} {B : Type κ} → Option A → (A → Option B) → Option B
then_ none f = none
then_ (some a) f = f a

-- The join of an identity with its user's instance.
unfoldable pub instance_of : Database → Text → Option InstanceInfo
instance_of db user = then_ (get db.user_instance user) (λ uuid. get db.instance_ uuid)

-- Joined through app_user, which holds every user id of user_identity.
unfoldable pub select_by_identity : Database → Text × Text → Option InstanceInfo
unfolding instance_of
select_by_identity db key =
    then_ (get db.user_identity key)
      (λ user. if has db.app_user user then instance_of db user else none)

abbrev pub same_text : Option Text → Text → Bool
same_text none t = false
same_text (some u) t = u == t

-- The user with this external id.
unfoldable pub user_by_external : Dict Text AppUser → Text → Option Text
user_by_external [] external = none
user_by_external ((id, u) ∷ users) external =
    if same_text u.external_user_id external then some id else user_by_external users external

-- The user's id at this provider.
unfoldable pub identity_of : Dict (Text × Text) Text → Text → Text → Option Text
identity_of [] user provider = none
identity_of (((p, pid), u) ∷ rows) user provider =
    if u == user && p == provider then some pid else identity_of rows user provider

unfoldable pub select_by_external : Database → Text × Text → Option (Text × InstanceInfo)
unfolding user_by_external identity_of instance_of
select_by_external db (external, provider) = then_ (user_by_external db.app_user external) λ user.
    then_ (identity_of db.user_identity user provider)
      λ pid. then_ (instance_of db user) λ info. some (pid, info)

-- `_cache_version`: a row that is missing is inserted, and read, in a session that is not
-- committed, so the insertion is rolled back.
unfoldable pub cache_version : Database → ℕ
cache_version db = elim db.version [ none ↦ 1 | some v ↦ v ]

-- `_bump_version`
unfoldable pub bump_version : Database → Database
bump_version db = record db { version = some (elim db.version [ none ↦ 1 | some v ↦ suc v ]) }
