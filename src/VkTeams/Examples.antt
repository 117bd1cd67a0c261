-- ===== src/VkTeams/Examples.antt =====
-- Polls of the VK Teams adapter at concrete answers.
use claw_mux.Base.{◌≡◌, refl, ok, true, some, List, [], ◌∷◌, All, Text, codes, list_eq}
use claw_mux.Web.Json.{
  Json, num, str, bool, arr, obj, nil, cons, field, end, get_or, find_field, truthy, str_of,
}
use claw_mux.Telegram.Poll.{Answer, failed, response}
use claw_mux.VkTeams.Poll.{new, start}
use claw_mux.VkTeams.Polled.{turns, received, IsForeign, turns-exact}

abbrev render : Json → Text
render j = codes "None"

abbrev self : Answer
self =
    response 200
      (some (obj (field (codes "ok") (bool true) (field (codes "userId") (str (codes "bot")) end))))

abbrev event : Json → Text → Json
event id user = obj (
    field (codes "eventId") id (
      field (codes "type") (str (codes "newMessage")) (
        field (codes "payload")
          (obj (
            field (codes "from") (obj (field (codes "userId") (str user) end))
              (field (codes "text") (str (codes "Hi")) end)))
          end)))

abbrev answers : List Answer
answers =
    failed
    ∷ response 200 (
        some (
          obj (
            field (codes "events")
              (arr (
                cons (event (num 1) (codes "u1")) (
                  cons (event (num 2) (codes "bot"))
                    (cons (str (codes "?")) (cons (event (num 3) (codes "u2")) nil)))))
              end)))
    ∷ []

self_ok : (start render self new).0 ≡ ok tt
unfolding start get_or find_field list_eq truthy str_of
self_ok = refl

turns-exact_example :
    let a = (start render self new).1 in
    ((turns render answers a).dispatched ≡ received render a.bot_user_id answers)
    × All (IsForeign a.bot_user_id) (turns render answers a).dispatched
turns-exact_example = turns-exact render self answers self_ok
