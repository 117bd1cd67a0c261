-- ===== src/Mapping/Replicas.antt =====
-- Several processes over one database, each with its own caches.
use claw_mux.Base.{
  ℕ, suc, ◌≡◌, refl, Option, some, List, [], ◌∷◌, arith, nat_eq, if◌then◌else◌, text_key, pair_key,
  Text, Result, ok, err, if-both,
}
use claw_mux.Instance.{InstanceInfo}
use claw_mux.Mapping.Providers.{Failure, validate_provider, instance_not_found}
use claw_mux.Mapping.Database.{
  Database, cache_version, bump_version, select_by_identity, select_by_external,
}
use claw_mux.Mapping.Cache.{Cache, stale_keys, pop_all}
use claw_mux.Mapping.Storage.{
  Caches, empty_caches, identity_key, by_identity, by_external, get_instance_by_identity,
  get_instance_by_external_id, reload_cache_version,
}
use claw_mux.Mapping.Bind.{transaction, bind_user_instance, bound, bind_to, Try}
use claw_mux.Mapping.Coherence.{Fresh, empty-Fresh, pop-Fresh, read_through_exact, direct}

-- Both caches of a process agree with the tables.
pub record Agree (db : Database) (cs : Caches) : Type 0 where
  pub identity : Fresh (cache_version db) (select_by_identity db) cs.identity
  pub external : Fresh (cache_version db) (select_by_external db) cs.external

pub Agree-empty : (db : Database) → Agree db empty_caches
Agree-empty db = record {
  identity = empty-Fresh (cache_version db) (select_by_identity db);
  external = empty-Fresh (cache_version db) (select_by_external db);
}

-- A committed transaction raises the version by one.
version-transaction :
    (provider user uuid : Text) (info : InstanceInfo) (external role : Option Text)
    (db d : Database) (n : ℕ)
    → db.version ≡ some n
    → transaction provider user uuid info external role db ≡ ok d
    → d.version ≡ some (suc n)
unfolding transaction bump_version
version-transaction provider user uuid info external role db d n v h = ground arith

-- Entries of older versions say nothing of the tables.
older-Fresh :
    {V : Type 0} (n : ℕ) (select select' : Text × Text → Option V) (cache : Cache V)
    → Fresh n select cache
    → Fresh (suc n) select' cache
older-Fresh n select select' cache h = record {
  not_later = λ k v x a g. omega (arith, h.not_later k v x a g);
  current = λ k v x a g e. absurd (omega (arith, h.not_later k v x a g));
}

-- The database and the caches of process `i`, for every `i`.
pub record System : Type 0 where
  pub db : Database
  pub caches : ℕ → Caches

-- What a process does, and at what times.
pub data Action : Type 0 where
  read_identity : ℕ → Text → Text → ℕ → ℕ → ℕ → Action
  read_external : ℕ → Text → Text → ℕ → ℕ → ℕ → Action
  bind : ℕ → Text → Text → Text → InstanceInfo → Option Text → Option Text → Action
  reload : ℕ → Action
  restart : ℕ → Action

abbrev set_caches : (ℕ → Caches) → ℕ → Caches → ℕ → Caches
set_caches f i cs j = if nat_eq i j then cs else f j

abbrev after_bind : System → ℕ → Database × Caches × Result Failure InstanceInfo → System
after_bind s i (d, cs, r) = record { db = d; caches = set_caches s.caches i cs }

unfoldable pub step : System → Action → System
step s (read_identity i provider user ttl now later) = record s {
  caches =
      set_caches s.caches i
        (get_instance_by_identity s.db (s.caches i) provider user ttl now later).0;
}
step s (read_external i external provider ttl now later) = record s {
  caches =
      set_caches s.caches i
        (get_instance_by_external_id s.db (s.caches i) external provider ttl now later).0;
}
step s (bind i provider user uuid info external role) =
    after_bind s i (bind_user_instance s.db (s.caches i) provider user uuid info external role)
step s (reload i) = record s {
  caches = set_caches s.caches i (reload_cache_version s.db (s.caches i)).0;
}
step s (restart i) = record s { caches = set_caches s.caches i empty_caches }

unfoldable pub steps : System → List Action → System
unfolding step
steps s [] = s
steps s (a ∷ as_) = steps (step s a) as_

-- The version's row is there, and every process agrees with the tables.
pub record Inv (s : System) : Type 0 where
  pub version : ℕ
  pub row : s.db.version ≡ some version
  pub agree : (i : ℕ) → Agree s.db (s.caches i)

set-Agree :
    (db : Database) (f : ℕ → Caches) (i : ℕ) (cs : Caches)
    → ((j : ℕ) → Agree db (f j))
    → Agree db cs
    → (j : ℕ) → Agree db (set_caches f i cs j)
set-Agree db f i cs h a j = if-both (Agree db) (nat_eq i j) a (h j)

read-Agree :
    (db : Database) (cs : Caches) (provider user : Text) (ttl now later : ℕ)
    → Agree db cs
    → Agree db (get_instance_by_identity db cs provider user ttl now later).0
unfolding get_instance_by_identity
read-Agree db cs provider user ttl now later a = go (validate_provider provider)
  where
    go : (r : Result Failure Text) → Agree db (by_identity db cs user ttl now later r).0
    go (err e) = a
    go (ok p) = record {
      identity =
          (read_through_exact db select_by_identity cs.identity (p, user)
            (instance_not_found (identity_key p user)) ttl now later a.identity).1;
      external = a.external;
    }

read_external-Agree :
    (db : Database) (cs : Caches) (external provider : Text) (ttl now later : ℕ)
    → Agree db cs
    → Agree db (get_instance_by_external_id db cs external provider ttl now later).0
unfolding get_instance_by_external_id
read_external-Agree db cs external provider ttl now later a = go (validate_provider provider)
  where
    go : (r : Result Failure Text) → Agree db (by_external db cs external ttl now later r).0
    go (err e) = a
    go (ok p) = record {
      identity = a.identity;
      external =
          (read_through_exact db select_by_external cs.external (external, p)
            (instance_not_found (identity_key p external)) ttl now later a.external).1;
    }

pop_all-Fresh :
    {V : Type 0} (version : ℕ) (select : Text × Text → Option V) (ks : List (Text × Text))
    (cache : Cache V)
    → Fresh version select cache
    → Fresh version select (pop_all ks cache)
unfolding pop_all
pop_all-Fresh version select [] cache h = h
pop_all-Fresh version select (k ∷ ks) cache h =
    pop_all-Fresh version select ks _ (pop-Fresh version select cache k h)

reload-Agree : (db : Database) (cs : Caches) → Agree db cs → Agree db (reload_cache_version db cs).0
unfolding reload_cache_version
reload-Agree db cs a = record {
  identity = pop_all-Fresh _ _ (stale_keys (cache_version db) cs.identity) cs.identity a.identity;
  external = pop_all-Fresh _ _ (stale_keys (cache_version db) cs.external) cs.external a.external;
}

version-some : (db : Database) (n : ℕ) → db.version ≡ some n → cache_version db ≡ n
unfolding cache_version
version-some db n e = rw e

older-Agree :
    (db d : Database) (cs : Caches) (n : ℕ)
    → db.version ≡ some n
    → d.version ≡ some (suc n)
    → Agree db cs
    → Agree d cs
older-Agree db d cs n e f a = record {
  identity =
      rw (version-some d (suc n) f)
        (older-Fresh n _ _ cs.identity (rw (version-some db n e) at a.identity));
  external =
      rw (version-some d (suc n) f)
        (older-Fresh n _ _ cs.external (rw (version-some db n e) at a.external));
}

bind-Inv :
    (s : System) (i : ℕ) (provider user uuid : Text) (info : InstanceInfo)
    (external role : Option Text)
    → Inv s
    → Inv (
        after_bind s i (bind_user_instance s.db (s.caches i) provider user uuid info external role))
unfolding bind_user_instance
bind-Inv s i provider user uuid info external role v = go (validate_provider provider)
  where
    keep_db : Inv (record s { caches = set_caches s.caches i (s.caches i) })
    keep_db = record {
      version = v.version;
      row = v.row;
      agree = set-Agree s.db s.caches i (s.caches i) v.agree (v.agree i);
    }

    commit :
        (p : Text) (t : Try)
        → transaction p user uuid info external role s.db ≡ t
        → Inv (after_bind s i (bound s.db (s.caches i) info t))
    commit p (err e) q = keep_db
    commit p (ok d) q =
        let r = version-transaction p user uuid info external role s.db d v.version v.row q in
        record {
          version = suc v.version;
          row = r;
          agree =
              set-Agree d s.caches i empty_caches
                (λ j. older-Agree s.db d (s.caches j) v.version v.row r (v.agree j))
                (Agree-empty d);
        }

    go :
        (r : Result Failure Text)
        → Inv (after_bind s i (bind_to s.db (s.caches i) user uuid info external role r))
    go (err e) = keep_db
    go (ok p) = commit p (transaction p user uuid info external role s.db) refl

step-Inv : (s : System) (a : Action) → Inv s → Inv (step s a)
unfolding step
step-Inv s (read_identity i provider user ttl now later) v = record {
  version = v.version;
  row = v.row;
  agree =
      set-Agree s.db s.caches i _ v.agree
        (read-Agree s.db (s.caches i) provider user ttl now later (v.agree i));
}
step-Inv s (read_external i external provider ttl now later) v = record {
  version = v.version;
  row = v.row;
  agree =
      set-Agree s.db s.caches i _ v.agree
        (read_external-Agree s.db (s.caches i) external provider ttl now later (v.agree i));
}
step-Inv s (bind i provider user uuid info external role) v =
    bind-Inv s i provider user uuid info external role v
step-Inv s (reload i) v = record {
  version = v.version;
  row = v.row;
  agree = set-Agree s.db s.caches i _ v.agree (reload-Agree s.db (s.caches i) (v.agree i));
}
step-Inv s (restart i) v = record {
  version = v.version;
  row = v.row;
  agree = set-Agree s.db s.caches i _ v.agree (Agree-empty s.db);
}

pub steps-Inv : (s : System) (as_ : List Action) → Inv s → Inv (steps s as_)
unfolding steps
steps-Inv s [] v = v
steps-Inv s (a ∷ as_) v = steps-Inv (step s a) as_ (step-Inv s a v)

-- What the tables say of an identity, uncached.
abbrev pub looked_up : Database → Text → Result Failure Text → Result Failure InstanceInfo
looked_up db user (err e) = err e
looked_up db user (ok p) =
    direct (instance_not_found (identity_key p user)) (select_by_identity db (p, user))

-- Where the tables have the row of the version, as the migration inserts it, and the caches agree
-- with them at first: whatever reads, binds, reloads and restarts the processes make, in any order,
-- every process reads through its cache just what the tables hold now. No replica ever answers with
-- a binding that another has replaced.
pub replicas_read_current :
    (s : System) (n : ℕ) (as_ : List Action) (i : ℕ) (provider user : Text) (ttl now later : ℕ)
    → s.db.version ≡ some n
    → ((j : ℕ) → Agree s.db (s.caches j))
    → let t = steps s as_ in
      (get_instance_by_identity t.db (t.caches i) provider user ttl now later).1
      ≡ looked_up t.db user (validate_provider provider)
unfolding get_instance_by_identity
replicas_read_current s n as_ i provider user ttl now later r g = go (validate_provider provider)
  where
    t : System
    t = steps s as_

    go :
        (r : Result Failure Text)
        → (by_identity t.db (t.caches i) user ttl now later r).1 ≡ looked_up t.db user r
    go (err e) = refl
    go (ok p) =
        (read_through_exact t.db select_by_identity (t.caches i).identity (p, user)
          (instance_not_found (identity_key p user)) ttl now later
          ((steps-Inv s as_ (record { version = n; row = r; agree = g })).agree i).identity).0
