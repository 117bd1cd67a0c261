-- ===== src/Teams/Examples.antt =====
-- The addresses of the Teams adapter at a concrete run.
use claw_mux.Base.{false, Option, some, List, [], ◌∷◌, Text, codes}
use claw_mux.Teams.Auth.{Settings}
use claw_mux.Teams.Adapter.{
  Request, Token, token, Action, activity_from, started, replied, edited, shared, stopped, new,
  steps,
}
use claw_mux.Teams.Addresses.{Inv, addresses_trusted}

abbrev settings : Settings
settings = record {
  teams_jwt_audience = [];
  teams_app_id = codes "app";
  teams_allowed_issuers = [];
  teams_jwks_urls = [];
  teams_allowed_service_url_hosts = codes "trafficmanager.net";
}

abbrev ask : List Request → Token
ask log = token (codes "t") (some 3600)

abbrev reply : List Request → Option Text
reply log = some (codes "a1")

abbrev run : List Action
run =
    started 10
    ∷ activity_from (codes "c1") (codes "https://smba.trafficmanager.net/emea/")
    ∷ activity_from (codes "c2") (codes "https://attacker.example/")
    ∷ replied 20 (codes "c1") (codes "Hi") []
    ∷ replied 30 (codes "c2") (codes "Hi") []
    ∷ edited 40 (codes "a1") (codes "Hello") (codes "c1")
    ∷ shared 50 (codes "c1") [] (codes "a.pdf" ∷ []) []
    ∷ stopped
    ∷ []

addresses_trusted_example :
    Inv
      (λ netloc. false)
      settings
      (steps (λ netloc. false) settings ask reply run (new (codes "app") (codes "pw")))
addresses_trusted_example =
    addresses_trusted (λ netloc. false) settings ask reply (codes "app") (codes "pw") run
