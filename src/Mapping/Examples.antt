-- ===== src/Mapping/Examples.antt =====
-- The theorems of the mapping storage at concrete inputs.
use claw_mux.Base.{
  ◌≡◌, ◌≢◌, refl, some, none, List, [], ◌∷◌, Text, codes, text_key, pair_key, list_eq, ok,
  list_eq_iff,
}
use claw_mux.Base.Dict.{get, put}
use claw_mux.Instance.{InstanceInfo}
use claw_mux.Mapping.Providers.{validate_provider}
use claw_mux.Mapping.Database.{
  Database, select_by_identity, identity_of, user_by_external, bump_version,
}
use claw_mux.Mapping.Storage.{get_instance_by_identity, empty_caches, identity_key}
use claw_mux.Mapping.Bind.{
  transaction, upsert_instance, upsert_user, upsert_identity, upsert_user_instance, taken,
}
use claw_mux.Mapping.Replicas.{
  System, Action, bind, read_identity, reload, Agree-empty, steps, looked_up, replicas_read_current,
}
use claw_mux.Mapping.Binding.{bind_resolves, bind_keeps_others}

abbrev platform : Text
platform = codes "slack"

abbrev ann : Text
ann = codes "ann"

abbrev bob : Text
bob = codes "bob"

abbrev home : InstanceInfo
home = record {
  instance_url = codes "ws://one";
  credentials = record {
    device_id = codes "d";
    public_key_b64 = codes "p";
    private_key_b64 = codes "q";
    device_token = codes "t";
    gateway_token = codes "g";
  };
}

-- Bob is bound to the instance "two".
abbrev before : Database
before = record {
  instance_ = (codes "two", home) ∷ [];
  app_user =
      (codes "slack:bob", record { external_user_id = some (codes "slack:bob"); role = none }) ∷ [];
  user_identity = ((platform, bob), codes "slack:bob") ∷ [];
  user_instance = (codes "slack:bob", codes "two") ∷ [];
  user_channel = [];
  version = some 3;
}

abbrev system : System
system = record { db = before; caches = λ i. empty_caches }

abbrev joined : Database
joined = record {
  instance_ = (codes "two", home) ∷ (codes "one", home) ∷ [];
  app_user =
      (codes "slack:bob", record { external_user_id = some (codes "slack:bob"); role = none })
      ∷ (codes "slack:ann", record { external_user_id = some (codes "slack:ann"); role = none })
      ∷ [];
  user_identity = ((platform, bob), codes "slack:bob") ∷ ((platform, ann), codes "slack:ann") ∷ [];
  user_instance = (codes "slack:bob", codes "two") ∷ (codes "slack:ann", codes "one") ∷ [];
  user_channel = [];
  version = some 4;
}

bound_ann : transaction platform ann (codes "one") home none none before ≡ ok joined
unfolding transaction upsert_instance upsert_user upsert_identity upsert_user_instance
    user_by_external identity_of taken bump_version get put list_eq
bound_ann = refl

abbrev moves : List Action
moves =
    read_identity 0 platform ann 30 5 6
    ∷ bind 1 platform ann (codes "one") home none none
    ∷ reload 0
    ∷ []

replicas_read_current_example :
    (get_instance_by_identity
      (steps system moves).db
      ((steps system moves).caches 0)
      platform
      ann
      30
      7
      8).1
    ≡ looked_up (steps system moves).db ann (validate_provider platform)
replicas_read_current_example =
    replicas_read_current system 3 moves 0 platform ann 30 7 8 refl (λ i. Agree-empty before)

bind_resolves_example : select_by_identity joined (platform, ann) ≡ some home
unfolding identity_of list_eq
bind_resolves_example =
    bind_resolves platform ann (codes "one") home none none before joined bound_ann (λ h. cc)

distinct_users : codes "slack:bob" ≢ identity_key platform ann
unfolding list_eq
distinct_users e = let h = (list_eq_iff (codes "slack:bob") (identity_key platform ann)).1 e in cc

bind_keeps_others_example :
    select_by_identity joined (platform, bob) ≡ select_by_identity before (platform, bob)
unfolding get list_eq
bind_keeps_others_example =
    bind_keeps_others platform ann (codes "one") home none none before joined (platform, bob)
      (codes "slack:bob") bound_ann refl distinct_users
