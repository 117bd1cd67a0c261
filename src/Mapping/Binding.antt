-- ===== src/Mapping/Binding.antt =====
-- What a committed binding changes, and what it leaves.
use claw_mux.Base.{
  ◌≡◌, ◌≢◌, refl, ◌⊎◌, inl, inr, true, false, Option, none, some, [], ◌∷◌, arith, Bool-cases,
  list_eq, list_eq_iff, list_eq_refl, if◌then◌else◌, ◌==◌, text_key, pair_key, pair_eq_iff, Text,
  ok, is_some,
}
use claw_mux.Base.Dict.{Dict, get, put, get-put, get-put_self}
use claw_mux.Instance.{InstanceInfo}
use claw_mux.Mapping.Database.{AppUser, Database, identity_of, bump_version, select_by_identity}
use claw_mux.Mapping.Storage.{identity_key}
use claw_mux.Mapping.Bind.{transaction, taken, filled, or_default}

taken-false :
    (rows : Dict Text Text) (id uuid u i : Text)
    → taken rows id uuid ≡ false
    → get rows u ≡ some i
    → u ≢ id
    → i ≢ uuid
unfolding taken get
taken-false [] id uuid u i t g n = cc
taken-false ((v, j) ∷ rows) id uuid u i t g n = λ e. elim (Bool-cases (list_eq v u)) [
  | inl b ↦ n (ground (arith, list_eq_iff v u, list_eq_iff v id, list_eq_iff j uuid))
  | inr b ↦ taken-false rows id uuid u i (ground arith) (ground arith) n e
]

module _ (p user uuid : Text) (info : InstanceInfo) (external role : Option Text) (db d : Database)
    (done : transaction p user uuid info external role db ≡ ok d) where
  abbrev id : Text
  id = identity_key p user

  -- The parts of a committed transaction.
  pub user_instance-after : d.user_instance ≡ put db.user_instance id uuid
  unfolding transaction bump_version
  user_instance-after = ground arith

  free-before : taken db.user_instance id uuid ≡ false
  unfolding transaction bump_version
  free-before = ground arith

  instance-after : d.instance_ ≡ put db.instance_ uuid info
  unfolding transaction bump_version
  instance-after = ground arith

  app_user-from :
      (o : Option AppUser) (u : Text)
      → get db.app_user id ≡ o
      → is_some (get d.app_user u) ≡ (if id == u then true else is_some (get db.app_user u))
  unfolding transaction bump_version
  app_user-from none u e = ground (
    arith,
    get-put db.app_user id u
        (record { external_user_id = some (or_default external id); role = role }),
    list_eq_iff id u,
  )
  app_user-from (some v) u e =
      ground (arith, get-put db.app_user id u (filled v role), list_eq_iff id u)

  app_user-after :
      (u : Text)
      → is_some (get d.app_user u) ≡ (if id == u then true else is_some (get db.app_user u))
  app_user-after u = app_user-from (get db.app_user id) u refl

  identity-after :
      (k : Text × Text)
      → (get d.user_identity k ≡ get db.user_identity k)
        ⊎ ((k ≡ (p, user)) × (get d.user_identity k ≡ some id) × (get db.user_identity k ≡ none))
  unfolding transaction bump_version
  identity-after k =
      ground (arith, get-put db.user_identity (p, user) k id, pair_eq_iff (p, user) k)

  identity_row :
      (is_some (identity_of db.user_identity id p) ≡ true
        → get db.user_identity (p, user) ≡ some id)
      → get d.user_identity (p, user) ≡ some id
  unfolding transaction bump_version
  identity_row known = ground (arith, get-put_self db.user_identity (p, user) id)

-- After a binding is committed the identity is resolved to the instance it was bound to, provided
-- that the user, if known at the provider, was known there under this very identity.
pub bind_resolves :
    (p user uuid : Text) (info : InstanceInfo) (external role : Option Text) (db d : Database)
    → transaction p user uuid info external role db ≡ ok d
    → (is_some (identity_of db.user_identity (identity_key p user) p) ≡ true
        → get db.user_identity (p, user) ≡ some (identity_key p user))
    → select_by_identity d (p, user) ≡ some info
unfolding select_by_identity
bind_resolves p user uuid info external role db d done known = ground (
  arith,
  id_row,
  app_user-after p user uuid info external role db d done id',
  list_eq_refl id',
  user_instance-after p user uuid info external role db d done,
  instance-after p user uuid info external role db d done,
  get-put_self db.user_instance id' uuid,
  get-put_self db.instance_ uuid info,
)
  where
    id' : Text
    id' = identity_key p user

    id_row : get d.user_identity (p, user) ≡ some id'
    id_row = identity_row p user uuid info external role db d done known

-- A committed binding changes the resolution of no identity that belongs to another user.
pub bind_keeps_others :
    (p user uuid : Text) (info : InstanceInfo) (external role : Option Text) (db d : Database)
    (k : Text × Text) (u : Text)
    → transaction p user uuid info external role db ≡ ok d
    → get db.user_identity k ≡ some u
    → u ≢ identity_key p user
    → select_by_identity d k ≡ select_by_identity db k
unfolding select_by_identity
bind_keeps_others p user uuid info external role db d k u done row other =
    go (get db.user_instance u) refl
  where
    id' : Text
    id' = identity_key p user

    go :
        (o : Option Text)
        → get db.user_instance u ≡ o
        → select_by_identity d k ≡ select_by_identity db k
    go none e = ground (
      arith,
      identity-after p user uuid info external role db d done k,
      app_user-after p user uuid info external role db d done u,
      list_eq_iff id' u,
      user_instance-after p user uuid info external role db d done,
      get-put db.user_instance id' u uuid,
    )
    go (some i) e = ground (
      arith,
      identity-after p user uuid info external role db d done k,
      app_user-after p user uuid info external role db d done u,
      list_eq_iff id' u,
      user_instance-after p user uuid info external role db d done,
      get-put db.user_instance id' u uuid,
      instance-after p user uuid info external role db d done,
      get-put db.instance_ uuid i info,
      list_eq_iff uuid i,
      taken-false db.user_instance id' uuid u i
          (free-before p user uuid info external role db d done) e other,
    )
