-- ===== src/Provisioner/Laws.antt =====
-- What provisioning leaves in the database, on every branch.
use claw_mux.Base.{
  ◌≡◌, refl, sym, ap, ◌∙◌, inl, inr, Bool, true, false, not, Option, none, some, List, [], ◌∷◌,
  if◌then◌else◌, text_key, pair_key, Text, codes, is_empty, is_some, strip, lower, Result, ok, err,
  Bool-cases, arith, if-both,
}
use claw_mux.Base.Hoare.{
  Post, Triple, Triple-if, Triple-bind, Triple-catch, Triple-given, Triple-weaken,
}
use claw_mux.Base.Dict.{get, get-put_self}
use claw_mux.Web.Json.{Json, str, or_else, text_of}
use claw_mux.Web.Urls.{urlparse}
use claw_mux.Web.Uuid.{is_uuid}
use claw_mux.Web.Unslashed.{has_slash, is_uuid_unslashed}
use claw_mux.Instance.{InstanceInfo}
use claw_mux.Mapping.Providers.{Failure, validate_provider}
use claw_mux.Mapping.Database.{Database, identity_of, select_by_identity}
use claw_mux.Mapping.Storage.{Caches, identity_key}
use claw_mux.Mapping.Bind.{Try, transaction, bound, bind_to, bind_user_instance}
use claw_mux.Mapping.Binding.{bind_resolves, user_instance-after}
use claw_mux.Provisioner.Target.{
  Settings, Error, crash, invalid_uuid, World, Run, Write, make_dirs, write_file, copy_file, check,
  check_url, validate_target, is_ws, is_allowed_host,
}
use claw_mux.Provisioner.Drivers.{Webhook, Answer}
use claw_mux.Provisioner.Seed.{
  Disk, Reading, content, not_utf8, unreadable, touch, place, copy_files, copy_and_substitute,
  target_dir, dest_dir, seed_workspace_template,
}
use claw_mux.Files.Paths.{path_join}
use claw_mux.Provisioner.{
  text, stored, credentials_of, bind, ask_driver, bind_answer, seed, provision_instance,
}

module _ (db : Database) where
  abbrev Kept : World → Type 0
  Kept w = w.db ≡ db

  -- Neither a return nor an error changes the database.
  abbrev KeepsDb : {A : Type 0} → Run A → Type 0
  KeepsDb m = Triple Kept m (λ a. Kept) (λ e. Kept)

  check-Triple :
      {A : Type 0} (r : Result Error A)
      → Triple Kept (check r) (λ a w. (r ≡ ok a) × Kept w) (λ e. Kept)
  check-Triple (ok a) = record { run = λ w h. (refl, h) }
  check-Triple (err e) = record { run = λ w h. h }

  check-KeepsDb : {A : Type 0} (r : Result Error A) → KeepsDb (check r)
  check-KeepsDb (ok a) = record { run = λ w h. h }
  check-KeepsDb (err e) = record { run = λ w h. h }

  module _ (d : Disk) where
    touch-KeepsDb : (e : Write) → KeepsDb (touch d e)
    touch-KeepsDb e = record {
      run = λ w h. if-both (Post (λ a. Kept) (λ e. Kept)) (d.fails (e ∷ w.disk)) h h;
    }

    place-KeepsDb :
        (fill : Text → Text) (source target : Text) (r : Reading)
        → KeepsDb (place d fill source target r)
    place-KeepsDb fill source target (content t) = touch-KeepsDb (write_file target (fill t))
    place-KeepsDb fill source target not_utf8 = touch-KeepsDb (copy_file source target)
    place-KeepsDb fill source target unreadable = record { run = λ w h. h }

    files-KeepsDb :
        (fill : Text → Text) (root target : Text) (files : List Text)
        → KeepsDb (copy_files d fill root target files)
    files-KeepsDb fill root target [] = record { run = λ w h. h }
    files-KeepsDb fill root target (f ∷ files) =
        Triple-bind
          (λ w.
            place d fill (path_join root f) (path_join target f) (d.read w.disk (path_join root f))
              w)
          _
          (record {
            run = λ w h.
                (place-KeepsDb fill (path_join root f) (path_join target f)
                    (d.read w.disk (path_join root f))).run
                  w h;
          })
          λ x. files-KeepsDb fill root target files

    copy-KeepsDb :
        (fill : Text → Text) (source dest : Text) (dirs : List (Text × List Text))
        → KeepsDb (copy_and_substitute d fill source dest dirs)
    unfolding copy_and_substitute
    copy-KeepsDb fill source dest [] = record { run = λ w h. h }
    copy-KeepsDb fill source dest ((root, files) ∷ dirs) =
        Triple-bind _ _ (touch-KeepsDb (make_dirs (target_dir d source dest root))) λ x.
          Triple-bind _ _ (files-KeepsDb fill root (target_dir d source dest root) files)
            λ y. copy-KeepsDb fill source dest dirs

    seed-KeepsDb :
        (s : Settings) (uuid provider user : Text)
        → KeepsDb (seed_workspace_template d s uuid provider user)
    unfolding seed_workspace_template
    seed-KeepsDb s uuid provider user =
        Triple-if (d.exists s.workspace_template_path)
          (λ t.
            Triple-catch _ _
              (Triple-bind _ _ (touch-KeepsDb (make_dirs (dest_dir d s uuid)))
                λ x. copy-KeepsDb _ _ _ _)
              λ e. record { run = λ w h. h })
          λ t. record { run = λ w h. h }

  text-KeepsDb : (j : Json) → KeepsDb (text j)
  text-KeepsDb j = check-KeepsDb (elim (text_of j) [ none ↦ err crash | some t ↦ ok t ])

  credentials-KeepsDb : (a : Answer) → KeepsDb (credentials_of a)
  credentials-KeepsDb a = Triple-bind (text a.device_id) _ (text-KeepsDb a.device_id) λ d.
      Triple-bind (text a.public_key_b64) _ (text-KeepsDb a.public_key_b64) λ p.
        Triple-bind (text a.private_key_b64) _ (text-KeepsDb a.private_key_b64) λ q.
          Triple-bind (text a.device_token) _ (text-KeepsDb a.device_token) λ t.
            Triple-bind (text a.gateway_token) _ (text-KeepsDb a.gateway_token)
              λ g. record { run = λ w h. h }

-- What the settings ask of an instance's address.
abbrev pub Trusted : (Text → Bool) → Settings → Text → Type 0
Trusted is_valid s url =
    (scheme : Text) × (host : Text) × (urlparse is_valid url ≡ some (scheme, host))
    × (is_ws scheme ≡ true)
    × (is_empty host ≡ false)
    × (is_allowed_host s host ≡ true)

clash : {e : Error} {a : Unit {0}} {r : Result Error (Unit {0})} → r ≡ err e → r ≡ ok a → ⊥
clash h k = cc

check_url-Trusted :
    (s : Settings) (o : Option (Text × Text))
    → check_url s o ≡ ok tt
    → (scheme : Text) × (host : Text) × (o ≡ some (scheme, host))
      × (is_ws scheme ≡ true)
      × (is_empty host ≡ false)
      × (is_allowed_host s host ≡ true)
check_url-Trusted s none h = elim (clash refl h) [ ]
check_url-Trusted s (some (scheme, host)) h =
    (scheme, host, refl, ground arith, ground arith, ground arith)

validate-Trusted :
    (is_valid : Text → Bool) (s : Settings) (uuid url : Text)
    → validate_target is_valid s uuid url ≡ ok tt
    → (is_uuid uuid ≡ true) × Trusted is_valid s url
unfolding validate_target
validate-Trusted is_valid s uuid url h = elim (Bool-cases (is_uuid uuid)) [
  | inl e ↦ (
    e,
    check_url-Trusted s (urlparse is_valid url) (
        sym (
          ap (λ b. if not b then err (invalid_uuid uuid) else check_url s (urlparse is_valid url))
            e)
        ∙ h),
  )
  | inr e ↦
      elim (clash
        (ap (λ b. if not b then err (invalid_uuid uuid) else check_url s (urlparse is_valid url)) e)
        h) [ ]
]

module _ (db : Database) (provider user uuid : Text) (info : InstanceInfo)
    (role : Option Text) where
  -- The transaction of a valid provider was committed.
  abbrev pub Committed : Database → Type 0
  Committed d =
      (p : Text) × (validate_provider provider ≡ ok p)
      × (transaction p user uuid info none role db ≡ ok d)

  abbrev Outcome : Database × Caches × Result Failure InstanceInfo → Type 0
  Outcome (d, c, ok i) = (i ≡ info) × Committed d
  Outcome (d, c, err e) = d ≡ db

  transaction-Outcome :
      (p : Text)
      → validate_provider provider ≡ ok p
      → (t : Try) → transaction p user uuid info none role db ≡ t
      → (cs : Caches) → Outcome (bound db cs info t)
  transaction-Outcome p v (ok d) e cs = (refl, (p, v, e))
  transaction-Outcome p v (err x) e cs = refl

  bind_to-Outcome :
      (r : Result Failure Text)
      → validate_provider provider ≡ r
      → (cs : Caches) → Outcome (bind_to db cs user uuid info none role r)
  bind_to-Outcome (ok p) v cs =
      transaction-Outcome p v (transaction p user uuid info none role db) refl cs
  bind_to-Outcome (err x) v cs = refl

  bind_user_instance-Outcome :
      (cs : Caches) → Outcome (bind_user_instance db cs provider user uuid info none role)
  unfolding bind_user_instance
  bind_user_instance-Outcome cs = bind_to-Outcome (validate_provider provider) refl cs

bind-Triple :
    (db : Database) (provider user uuid : Text) (info : InstanceInfo) (role : Text)
    → Triple
        (Kept db)
        (bind provider user uuid info role)
        (λ i w. (i ≡ info) × Committed db provider user uuid info (some role) w.db)
        (λ e. Kept db)
bind-Triple db provider user uuid info role = record {
  run = λ w h.
      go w h (bind_user_instance w.db w.caches provider user uuid info none (some role))
        (bind_user_instance-Outcome w.db provider user uuid info (some role) w.caches);
}
  where
    go :
        (w : World)
        → w.db ≡ db
        → (r : Database × Caches × Result Failure InstanceInfo)
        → Outcome w.db provider user uuid info (some role) r
        → Post
            (λ i w. (i ≡ info) × Committed db provider user uuid info (some role) w.db)
            (λ e. Kept db)
            (stored w r)
    go w h (d, c, ok i) (e, (p, v, t)) =
        (e, (p, v, ap (transaction p user uuid info none (some role)) (sym h) ∙ t))
    go w h (d, c, err x) e = e ∙ h

module _ (is_valid : Text → Bool) (d : Disk) (post : Webhook) (uuid4 : Text) (s : Settings)
    (provider user : Text) (db : Database) where
  abbrev Accepted : InstanceInfo → World → Type 0
  Accepted info w =
      (uuid : Text) × (role : Text) × (is_uuid uuid ≡ true)
      × Trusted is_valid s info.instance_url
      × Committed db provider user uuid info (some role) w.db

  bind_answer-Triple :
      (uuid url : Text) (a : Answer)
      → is_uuid uuid ≡ true
      → Trusted is_valid s url
      → Triple
          (Kept db)
          (bind_answer is_valid d post uuid4 s provider user uuid url a)
          Accepted
          (λ e. Kept db)
  bind_answer-Triple uuid url a u t =
      Triple-bind (credentials_of a) _ (credentials-KeepsDb db a) λ c.
        Triple-bind (text (or_else a.role (str (codes "user")))) _
          (text-KeepsDb db (or_else a.role (str (codes "user"))))
          λ role.
            Triple-weaken
              (bind provider user uuid (record { instance_url = url; credentials = c }) role)
              (λ i w h. (uuid, role, u, rw h.0 t, rw h.0 h.1))
              (bind-Triple db provider user uuid (record { instance_url = url; credentials = c })
                role)

  provision-Triple :
      Triple
        (Kept db)
        (provision_instance is_valid d post uuid4 s provider user)
        Accepted
        (λ e. Kept db)
  unfolding provision_instance
  provision-Triple =
      Triple-bind
        (check
          (ask_driver is_valid d post uuid4 s (strip (lower s.provisioning_driver)) provider user))
        _ (check-KeepsDb db _)
        λ a. Triple-bind (text a.instance_uuid) _ (text-KeepsDb db a.instance_uuid) λ uuid.
          Triple-bind (text a.instance_url) _ (text-KeepsDb db a.instance_url) λ url.
            Triple-bind (check (validate_target is_valid s uuid url)) _
              (check-Triple db (validate_target is_valid s uuid url))
              λ x. Triple-given _ λ v.
                let (u, t) = validate-Trusted is_valid s uuid url v in
                Triple-bind (seed is_valid d post uuid4 s provider user uuid a) _
                  (Triple-if a.workspace_seeded (λ e. record { run = λ w h. h })
                    λ e. seed-KeepsDb db d s uuid provider user)
                  λ y. bind_answer-Triple uuid url a u t

-- The identity at the provider `p`, if its user is known there, is the one that the user is known by.
abbrev pub IsKnownBy : Database → Text → Text → Type 0
IsKnownBy db p user =
    is_some (identity_of db.user_identity (identity_key p user) p) ≡ true
    → get db.user_identity (p, user) ≡ some (identity_key p user)

module _ (is_valid : Text → Bool) (s : Settings) (provider user : Text) (db : Database) where
  -- The user's instance is recorded under a UUID without a slash, the address is trusted, and the
  -- identity is resolved to the instance.
  abbrev pub Provisioned : InstanceInfo → World → Type 0
  Provisioned info w =
      (p : Text) × (uuid : Text) × (validate_provider provider ≡ ok p)
      × (is_uuid uuid ≡ true)
      × (has_slash uuid ≡ false)
      × (get w.db.user_instance (identity_key p user) ≡ some uuid)
      × Trusted is_valid s info.instance_url
      × (IsKnownBy db p user → select_by_identity w.db (p, user) ≡ some info)

  resolved-Provisioned :
      (d : Disk) (post : Webhook) (uuid4 : Text) (info : InstanceInfo) (w : World)
      → Accepted is_valid d post uuid4 s provider user db info w
      → Provisioned info w
  resolved-Provisioned d post uuid4 info w (uuid, role, u, t, (p, v, done)) = (
    p,
    uuid,
    v,
    u,
    is_uuid_unslashed uuid u,
    ap (λ t. get t (identity_key p user))
          (user_instance-after p user uuid info none (some role) db w.db done)
        ∙ get-put_self db.user_instance (identity_key p user) uuid,
    t,
    bind_resolves p user uuid info none (some role) db w.db done,
  )

-- Whatever the webhook answers and whatever fails on the disk, provisioning ends in one of two ways.
-- With an instance: the user's instance is recorded under a UUID without a slash, the scheme of its
-- address is "ws" or "wss" and its host one that the settings allow, and a lookup of the identity
-- gives the instance, if the user was not known at the provider by another identity. With an
-- error: the database is as before.
pub provision_exact :
    (is_valid : Text → Bool) (d : Disk) (post : Webhook) (uuid4 : Text) (s : Settings)
    (provider user : Text) (w : World)
    → Post
        (Provisioned is_valid s provider user w.db)
        (λ e w'. w'.db ≡ w.db)
        (provision_instance is_valid d post uuid4 s provider user w)
provision_exact is_valid d post uuid4 s provider user w =
    (Triple-weaken (provision_instance is_valid d post uuid4 s provider user)
        (resolved-Provisioned is_valid s provider user w.db d post uuid4)
        (provision-Triple is_valid d post uuid4 s provider user w.db)).run
      w refl
