-- ===== src/Api/Guarded.antt =====
-- Without the configured secret nothing is looked up, changed, forwarded or dispatched.
use claw_mux.Base.{
  ◌≡◌, refl, ap, inl, inr, ◌⊎◌, if-both, false, not, Option, none, some, List, [], any, ltb, arith,
  Bool-cases, is_empty, ◌==◌, text_key, Text,
}
use claw_mux.Web.Json.{Json}
use claw_mux.Api.Guard.{compare_digest, holds, Reply}
use claw_mux.Api.Control.{
  Context, Body, Endpoint, Process, authorized, trigger, notify, reload_mappings,
}
use claw_mux.Api.Action.{Shown, or_query, proxy_mm_action}
use claw_mux.Api.Bitrix.{
  Request, Event, Status, bitrix_webhook_event, payload_of, extract_inbound_token, with_payload,
  checked,
}

-- Another text than the secret: the comparison does not succeed.
compare-refuses :
    (provided secret : Text)
    → (provided == secret) ≡ false
    → (compare_digest provided secret ≡ none) ⊎ (compare_digest provided secret ≡ some false)
unfolding compare_digest
compare-refuses a b h = elim (Bool-cases (any (λ c. not (ltb c 128)) a)) [
  | inl e ↦ inl (rw e refl)
  | inr e ↦ elim (Bool-cases (any (λ c. not (ltb c 128)) b)) [
    | inl f ↦ inl (rw e (rw f refl))
    | inr f ↦ inr (rw e (rw f (ap some h)))
  ]
]

differs :
    (secret provided : Text)
    → holds secret provided ≡ false
    → is_empty secret ≡ false
    → (provided == secret) ≡ false
differs secret provided h e = ground arith

authorized-guarded :
    (c : Context) (token : Text) (body : Endpoint) (p : Process)
    → holds c.api_token token ≡ false
    → (authorized c token body p).1 ≡ p
unfolding authorized
authorized-guarded c token body p h = elim (Bool-cases (is_empty c.api_token)) [
  | inl e ↦ rw e refl
  | inr e ↦ rw e (elim (compare-refuses token c.api_token (differs c.api_token token h e)) [
    | inl n ↦ rw n refl
    | inr n ↦ rw n refl
  ])
]

action-guarded :
    (post : Json → Option Json) (secret header query : Text) (body : Option Json)
    → holds secret (or_query header query) ≡ false
    → (proxy_mm_action post secret header query body).1 ≡ []
unfolding proxy_mm_action
action-guarded post secret header query body h = elim (Bool-cases (is_empty secret)) [
  | inl e ↦ rw e refl
  | inr e ↦ rw e (
      if-both (λ (x : Reply Shown × List Json). x.1 ≡ []) (is_empty (or_query header query)) refl
        (elim (compare-refuses (or_query header query) secret
          (differs secret (or_query header query) h e)) [ inl n ↦ rw n refl | inr n ↦ rw n refl ]))
]

checked-guarded :
    (render : Json → Text) (secret bot_id : Text) (payload : Json) (t : Option Text)
    → is_empty secret ≡ false
    → ((token : Text) → t ≡ some token → holds secret token ≡ false)
    → (checked render secret bot_id payload t).1 ≡ []
checked-guarded render secret bot_id payload none e h = refl
checked-guarded render secret bot_id payload (some token) e h =
    if-both (λ (x : Reply Status × List Event). x.1 ≡ []) (is_empty token) refl
      (elim (compare-refuses token secret (differs secret token (h token refl) e)) [
        | inl n ↦ rw n refl
        | inr n ↦ rw n refl
      ])

with_payload-guarded :
    (render : Json → Text) (secret bot_id : Text) (r : Request) (o : Option Json)
    → ((payload : Json) (t : Text)
        → o ≡ some payload
        → extract_inbound_token r payload ≡ some t
        → holds secret t ≡ false)
    → (with_payload render secret bot_id r o).1 ≡ []
with_payload-guarded render secret bot_id r none h = refl
with_payload-guarded render secret bot_id r (some payload) h = elim (Bool-cases (is_empty secret)) [
  | inl e ↦ rw e refl
  | inr e ↦ rw e (
      checked-guarded render secret bot_id payload (extract_inbound_token r payload) e
        λ t k. h payload t refl k)
]

-- Without the configured secret an endpoint has no effect: a call of the control plane leaves the caches and the tasks as they were, a click on a button is not
-- forwarded, and an event of Bitrix is not dispatched. An empty secret in the settings holds for no call.
pub endpoints_guarded :
    (c : Context) (token : Text) (req : Body) (p : Process) (post : Json → Option Json)
    (secret header query : Text) (body : Option Json) (render : Json → Text) (bot_id : Text)
    (r : Request)
    → holds c.api_token token ≡ false
    → holds secret (or_query header query) ≡ false
    → ((payload : Json) (t : Text)
        → payload_of r ≡ some payload
        → extract_inbound_token r payload ≡ some t
        → holds secret t ≡ false)
    → ((trigger c token req p).1 ≡ p)
      × ((notify c token req p).1 ≡ p)
      × ((reload_mappings c token p).1 ≡ p)
      × ((proxy_mm_action post secret header query body).1 ≡ [])
      × ((bitrix_webhook_event render secret bot_id r).1 ≡ [])
unfolding trigger notify reload_mappings bitrix_webhook_event
endpoints_guarded c token req p post secret header query body render bot_id r h k l = (
  authorized-guarded c token _ p h,
  authorized-guarded c token _ p h,
  authorized-guarded c token _ p h,
  action-guarded post secret header query body k,
  with_payload-guarded render secret bot_id r (payload_of r) l,
)
