-- ===== src/Mapping/Channels.antt =====
-- The last known channel of an identity.
use claw_mux.Base.{◌≡◌, some, arith, ok, Text, pair_key, pair_eq, if◌then◌else◌}
use claw_mux.Base.Dict.{get-put}
use claw_mux.Mapping.Providers.{validate_provider}
use claw_mux.Mapping.Database.{Database}
use claw_mux.Mapping.Storage.{remember_channel, get_channel}

-- After `remember_channel`, `get_channel` gives that channel for the same identity, however its
-- provider is spelled, and for every other identity what it gave before.
pub get_channel-remember_channel :
    (db d : Database) (provider p other q user who channel : Text)
    → validate_provider provider ≡ ok p
    → validate_provider other ≡ ok q
    → remember_channel db provider user channel ≡ ok d
    → get_channel d other who
      ≡ (if pair_eq (p, user) (q, who) then ok (some channel) else get_channel db other who)
unfolding get_channel remember_channel
get_channel-remember_channel db d provider p other q user who channel e f h =
    ground (arith, get-put db.user_channel (p, user) (q, who) channel)
