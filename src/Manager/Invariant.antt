-- ===== src/Manager/Invariant.antt =====
-- The registered clients and guardians against those that are alive.
use claw_mux.Base.{
  ℕ, ◌<◌, ◌≡◌, ◌≢◌, not, ◌||◌, refl, Bool, Option, none, some, List, arith, nat_eq_iff, list_eq_iff,
  text_key, nat_key, Text, if-both,
}
use claw_mux.Base.Dict.{Dict, get, put, pop, has, get-put, get-pop}
use claw_mux.Instance.{InstanceInfo}
use claw_mux.Manager.{
  Settings, Reply, Manager, Attempts, attempts, new, start_guardian, connected, connect_new,
  is_open, registered, get_or_create, guardian_turn, close_connection, cancel, close_opt,
}

pub record Inv (m : Manager) : Type 0 where
  pub client_owned : (c : ℕ) (u : Text) → get m.open_ c ≡ some u → get m.clients u ≡ some c
  pub client_fresh : (c : ℕ) (u : Text) → get m.open_ c ≡ some u → c < m.next_id
  pub guardian_owned : (t : ℕ) (u : Text) → get m.running t ≡ some u → get m.guardians u ≡ some t
  pub guardian_fresh : (t : ℕ) (u : Text) → get m.running t ≡ some u → t < m.next_id

pub new-Inv : (connects : List Bool) (replies : List (Option Reply)) → Inv (new connects replies)
unfolding get
new-Inv connects replies = record {
  client_owned = λ c u h. cc;
  client_fresh = λ c u h. cc;
  guardian_owned = λ t u h. cc;
  guardian_fresh = λ t u h. cc;
}

module _ (m : Manager) (v : Inv m) where
  -- A client of the user is closed.
  pub close_opt-Inv : (o : Option ℕ) → Inv (record m { open_ = close_opt o m.open_ })
  close_opt-Inv none = v
  close_opt-Inv (some c) = record {
    client_owned = λ d u h. ground (arith, v.client_owned d u, get-pop m.open_ c d);
    client_fresh = λ d u h. ground (arith, v.client_fresh d u, get-pop m.open_ c d);
    guardian_owned = v.guardian_owned;
    guardian_fresh = v.guardian_fresh;
  }

  close_opt-none :
      (o : Option ℕ) (user : Text) (c : ℕ)
      → get m.clients user ≡ o
      → get (close_opt o m.open_) c ≢ some user
  close_opt-none none user c e h = cc (v.client_owned c user h)
  close_opt-none (some d) user c e h =
      ground (arith, v.client_owned c user, get-pop m.open_ d c, nat_eq_iff d c)

  -- A new client for a user that has none open.
  connected-Inv :
      (user : Text) (r : Attempts)
      → ((c : ℕ) → get m.open_ c ≢ some user)
      → Inv (connected r user m)
  connected-Inv user r alone = record {
    client_owned = λ c u h. ground (
      arith,
      v.client_owned c u,
      v.client_fresh c u,
      alone c,
      get-put m.open_ m.next_id c user,
      get-put m.clients user u m.next_id,
      nat_eq_iff m.next_id c,
      list_eq_iff user u,
    );
    client_fresh = λ c u h.
        ground
          (arith, v.client_fresh c u, get-put m.open_ m.next_id c user, nat_eq_iff m.next_id c);
    guardian_owned = v.guardian_owned;
    guardian_fresh = λ t u h. omega (arith, v.guardian_fresh t u h);
  }

  cancel-free :
      (o : Option ℕ) (user : Text) (t : ℕ)
      → get m.guardians user ≡ o
      → get (cancel o m.running) t ≢ some user
  cancel-free none user t e h = cc (v.guardian_owned t user h)
  cancel-free (some d) user t e h =
      ground (arith, v.guardian_owned t user, get-pop m.running d t, nat_eq_iff d t)

  cancel-old :
      (o : Option ℕ) (u : Text) (t : ℕ)
      → get (cancel o m.running) t ≡ some u
      → get m.running t ≡ some u
  cancel-old none u t h = h
  cancel-old (some d) u t h = ground (arith, get-pop m.running d t)

  start_guardian-Inv : (user : Text) → Inv (start_guardian user m)
  unfolding start_guardian
  start_guardian-Inv user =
      let o = get m.guardians user in
      record {
        client_owned = v.client_owned;
        client_fresh = λ c u h. omega (arith, v.client_fresh c u h);
        guardian_owned = λ t u h. ground (
          arith,
          cancel-old o u t,
          v.guardian_owned t u,
          cancel-free o user t refl,
          v.guardian_fresh t u,
          get-put (cancel o m.running) m.next_id t user,
          get-put m.guardians user u m.next_id,
          nat_eq_iff m.next_id t,
          list_eq_iff user u,
        );
        guardian_fresh = λ t u h. ground (
          arith,
          cancel-old o u t,
          v.guardian_fresh t u,
          get-put (cancel o m.running) m.next_id t user,
          nat_eq_iff m.next_id t,
        );
      }

  -- The other fields do not matter.
  pub other-Inv :
      (infos : Dict Text InstanceInfo) (active : Dict Text ℕ) (down : Bool) (connects : List Bool)
      (replies : List (Option Reply)) (slept : List ℕ) (sent : List (ℕ × Text))
      → Inv (record m {
        user_info = infos;
        last_active = active;
        shutting_down = down;
        connects = connects;
        replies = replies;
        slept = slept;
        sent = sent;
      })
  other-Inv infos active down connects replies slept sent = record {
    client_owned = v.client_owned;
    client_fresh = v.client_fresh;
    guardian_owned = v.guardian_owned;
    guardian_fresh = v.guardian_fresh;
  }

  pub cancel-Inv : (t : ℕ) → Inv (record m { running = pop m.running t })
  cancel-Inv t = record {
    client_owned = v.client_owned;
    client_fresh = v.client_fresh;
    guardian_owned = λ d u h. ground (arith, v.guardian_owned d u, get-pop m.running t d);
    guardian_fresh = λ d u h. ground (arith, v.guardian_fresh d u, get-pop m.running t d);
  }

module _ (s : Settings) (m : Manager) (v : Inv m) where
  connect_new-Inv :
      (user : Text)
      → Inv (connect_new s user (record m { open_ = close_opt (get m.clients user) m.open_ })).0
  unfolding connect_new
  connect_new-Inv user =
      connected-Inv _ (close_opt-Inv m v (get m.clients user)) user
        (attempts s.base_delay s.max_retries 0 m.connects)
        (λ c. close_opt-none m v (get m.clients user) user c refl)

  registered-Inv :
      (user : Text) (info : InstanceInfo) (r : Manager × Option ℕ)
      → Inv r.0
      → Inv (registered user info r).0
  registered-Inv user info (n, none) w = w
  registered-Inv user info (n, some c) w =
      start_guardian-Inv _
        (other-Inv n w (put n.user_info user info) n.last_active n.shutting_down n.connects
          n.replies n.slept n.sent)
        user

  pub get_or_create-Inv : (user : Text) (info : InstanceInfo) → Inv (get_or_create s user info m).0
  unfolding get_or_create
  get_or_create-Inv user info =
      if-both (λ (r : Manager × Option ℕ). Inv r.0) (is_open m (get m.clients user)) v
        (registered-Inv user info _ (connect_new-Inv user))

  pub guardian_turn-Inv : (user : Text) (t : ℕ) → Inv (guardian_turn s user t m)
  unfolding guardian_turn
  guardian_turn-Inv user t =
      if-both Inv (m.shutting_down || not (has m.clients user) || not (has m.user_info user))
        (cancel-Inv m v t) (connect_new-Inv user)

  pub close_connection-Inv : (user : Text) → Inv (close_connection user m)
  unfolding close_connection
  close_connection-Inv user =
      let o = get m.guardians user in
      let k = get m.clients user in
      record {
        client_owned = λ c u h. ground (
          arith,
          (close_opt-Inv m v k).client_owned c u h,
          close_opt-none m v k user c refl,
          get-pop m.clients user u,
          list_eq_iff user u,
        );
        client_fresh = λ c u h. (close_opt-Inv m v k).client_fresh c u h;
        guardian_owned = λ t u h. ground (
          arith,
          v.guardian_owned t u (cancel-old m v o u t h),
          cancel-free m v o user t refl,
          get-pop m.guardians user u,
          list_eq_iff user u,
        );
        guardian_fresh = λ t u h. v.guardian_fresh t u (cancel-old m v o u t h);
      }
