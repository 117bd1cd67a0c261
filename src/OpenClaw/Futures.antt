-- ===== src/OpenClaw/Futures.antt =====
-- The futures under the operations that may settle them.
use claw_mux.Base.{
  ℕ, ◌≡◌, true, false, Option, none, some, List, [], arith, if-both, ◌==◌, nat_eq_iff, text_key,
  codes, ◌++◌, nat_key,
}
use claw_mux.Base.Dict.{Dict, get, get-put}
use claw_mux.Aggregator.{ClawMessage}
use claw_mux.OpenClaw.State.{
  Client, Output, Future, result, exception, pending_open, set_pending, complete, open_at,
  is_waiting,
}
use claw_mux.OpenClaw.Frame.{Frame}
use claw_mux.OpenClaw.Dispatch.{
  dispatch, on_res, on_assistant, on_lifecycle, on_agent, on_chat, on_cron, is_ignored, route,
  answers_request, failure_text, text_or,
}
use claw_mux.OpenClaw.Actions.{end_listen}

-- What holds of each handler's result holds of `dispatch`.
pub dispatch-cases {ℓ} :
    (P : Client × List Output → Type ℓ) (now : ℕ) (c : Client) (f : Frame)
    → P (c, [])
    → P (on_res c f)
    → P (on_agent c f)
    → P (on_chat now c f)
    → P (on_cron c f)
    → P (dispatch now c f)
unfolding dispatch
dispatch-cases P now c f none_ res agent chat cron = if-both P (is_ignored f) none_ (
    if-both P (f.type == codes "res") res (
      if-both P (f.event == codes "agent") agent (
        if-both P (f.event == codes "chat") chat (if-both P (f.event == codes "cron") cron none_))))

complete-settled :
    (futures : Dict ℕ Future) (p : Option ℕ) (w : Future) (f : ℕ) (v : Future)
    → open_at futures p ≡ true
    → get futures f ≡ some v
    → is_waiting (some v) ≡ false
    → get (complete futures p w) f ≡ some v
complete-settled futures none w f v o e d = e
complete-settled futures (some g) w f v o e d =
    ground (arith, get-put futures g f w, nat_eq_iff g f)

module _ (c : Client) (f : ℕ) (v : Future) (e : get c.futures f ≡ some v)
    (d : is_waiting (some v) ≡ false) where
  pub set_pending-settled :
      (w : Future) → pending_open c ≡ true → get (set_pending c w).futures f ≡ some v
  unfolding set_pending pending_open
  set_pending-settled w o = complete-settled c.futures c.pending_future w f v o e d

  pub on_res-settled : (fr : Frame) → get (on_res c fr).0.futures f ≡ some v
  unfolding on_res
  on_res-settled fr =
      ground (arith, set_pending-settled (result (codes "[Error: " ++ fr.error ++ codes "]") []))

  on_lifecycle-settled : (fr : Frame) → get (on_lifecycle c fr).0.futures f ≡ some v
  unfolding on_lifecycle
  on_lifecycle-settled fr = ground (
    arith,
    set_pending-settled (
        result
          (failure_text (text_or (get c.agent_texts fr.run_id) [])
            (text_or fr.data_error (codes "Unknown LLM error")))
          []),
  )

  on_agent-settled : (fr : Frame) → get (on_agent c fr).0.futures f ≡ some v
  unfolding on_agent on_assistant
  on_agent-settled fr = ground (arith, on_lifecycle-settled fr)

  pub dispatch-settled : (now : ℕ) (fr : Frame) → get (dispatch now c fr).0.futures f ≡ some v
  unfolding on_chat on_cron
  dispatch-settled now fr =
      dispatch-cases (λ r. get r.0.futures f ≡ some v) now c fr e (on_res-settled fr)
        (on_agent-settled fr) e e

  pub route-settled : (m : ClawMessage) → get (route c m).0.futures f ≡ some v
  unfolding route answers_request
  route-settled m = ground (arith, set_pending-settled (result m.text m.media_paths))

  pub end_listen-settled : get (end_listen c).futures f ≡ some v
  unfolding end_listen set_pending
  end_listen-settled = ground (arith, set_pending-settled exception)
