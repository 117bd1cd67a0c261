-- ===== src/Aggregator/Examples.antt =====
-- The theorems of the aggregator at concrete inputs.
use claw_mux.Base.{
  ℕ, list_eq, ◌≡◌, refl, true, some, none, [], ◌∷◌, codes, text_key, nat_key, if◌then◌else◌,
}
use claw_mux.Base.Dict.{get}
use claw_mux.Aggregator.{ClawMessage, final, is_final, select_best, new, fire}
use claw_mux.Aggregator.Timers.{Inv, new-Inv, event, timer, after, after-Inv}
use claw_mux.Aggregator.Burst.{add_events, burst_delivers}

abbrev draft : ClawMessage
draft = record {
  msg_id = codes "m1";
  seq = 1;
  text = codes "ok";
  state = final;
  ts = 3;
  media_paths = [];
}

abbrev answer : ClawMessage
answer = record {
  msg_id = codes "m1";
  seq = 2;
  text = codes "All done.";
  state = final;
  ts = 4;
  media_paths = [];
}

after-Inv_example : Inv (after 2 (new true) (event draft ∷ event answer ∷ timer 1 ∷ []))
after-Inv_example =
    after-Inv 2 (new true) (event draft ∷ event answer ∷ timer 1 ∷ []) (new-Inv true)

burst_delivers_example :
    let b = add_events (new true) (draft ∷ answer ∷ []) in
    (t : ℕ) × (get b.timers t ≡ some (codes "m1"))
    × ((u : ℕ) → get b.timers u ≡ some (codes "m1") → u ≡ t)
    × ((fire 2 b t).1 ≡ (if true then select_best 2 (draft ∷ answer ∷ []) else none))
    × (get (fire 2 b t).0.buffers (codes "m1") ≡ none)
    × (get (fire 2 b t).0.tasks (codes "m1") ≡ none)
unfolding get is_final list_eq
burst_delivers_example =
    burst_delivers 2 (new true) (codes "m1") draft (answer ∷ []) (new-Inv true) refl
      ((refl, refl), ((refl, refl), tt))
