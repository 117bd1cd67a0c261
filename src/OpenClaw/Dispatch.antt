-- ===== src/OpenClaw/Dispatch.antt =====
-- `_dispatch` and `_route_aggregated_message`.
use claw_mux.Base.{
  ℕ, Bool, not, ◌&&◌, ◌||◌, Option, none, some, List, [], ◌∷◌, ◌++◌, ◌==◌, text_key, any, nat_key,
  Text, codes, contains, is_empty, if◌then◌else◌,
}
use claw_mux.Base.Dict.{get, put, has}
use claw_mux.Aggregator.{ClawMessage, add_event}
use claw_mux.OpenClaw.State.{
  Client, Output, stream, proactive, fallback, cleanup, result, pending_open, set_pending, truthy,
  same_id,
}
use claw_mux.OpenClaw.Frame.{Frame, extract_text}
use claw_mux.OpenClaw.Media.{media_paths_of, clean_text}

abbrev pub skip_events : List Text
skip_events = codes "health" ∷ codes "tick" ∷ codes "presence" ∷ codes "heartbeat" ∷ []

abbrev pub when : Bool → Output → List Output
when b o = if b then o ∷ [] else []

abbrev pub text_or : Option Text → Text → Text
text_or none d = d
text_or (some t) d = t

-- The acknowledgement of chat.send.
unfoldable pub on_res : Client → Frame → Client × List Output
on_res c f = if f.ok then (c, []) else (
  record (if pending_open c
      then set_pending c (result (codes "[Error: " ++ f.error ++ codes "]") [])
      else c) { active_msg_id = none; pending_future = none; pending_future_msg_id = none },
  [],
)

-- agent / assistant: the clean text is buffered and streamed.
unfoldable pub on_assistant : Client → Frame → Client × List Output
on_assistant c f =
    if not (is_empty f.data_text) && not (is_empty f.run_id)
    then (
      record c { agent_texts = put c.agent_texts f.run_id f.data_text },
      when (c.active_on_stream && truthy c.active_msg_id) (stream f.data_text),
    )
    else (c, [])

abbrev pub failure_text : Text → Text → Text
failure_text existing error =
    if is_empty existing
    then codes "[LLM error: " ++ error ++ codes "]"
    else existing ++ codes "\n\n⚠" ++ 0xfe0f ∷ (codes " **Generation failure:** " ++ error)

-- agent / lifecycle: an error answers the request at once; an end schedules the fallback.
unfoldable pub on_lifecycle : Client → Frame → Client × List Output
on_lifecycle c f =
    let existing = text_or (get c.agent_texts f.run_id) [] in
    let error = text_or f.data_error (codes "Unknown LLM error") in
    if f.data_phase == codes "error"
    then (
      if truthy c.active_msg_id && pending_open c
          then set_pending c (result (failure_text existing error) [])
          else c,
      [],
    )
    else if f.data_phase == codes "end"
    then (
      c,
      when
          (not (is_empty f.run_id)
            && truthy c.active_msg_id
            && not (is_empty existing)
            && pending_open c)
          (fallback (text_or c.active_msg_id []) existing),
    )
    else (c, [])

unfoldable pub on_agent : Client → Frame → Client × List Output
unfolding on_assistant on_lifecycle
on_agent c f =
    if f.stream == codes "assistant"
    then on_assistant c f
    else if f.stream == codes "lifecycle"
    then on_lifecycle c f
    else (c, [])

abbrev pub truthy_or : Option Text → Text → Text
truthy_or none d = d
truthy_or (some t) d = if is_empty t then d else t

-- The text of a chat event: the agent's own, if there is one.
unfoldable pub chat_text : Client → Frame → Text
chat_text c f = truthy_or (get c.agent_texts f.run_id) (extract_text f)

-- The event as the aggregator is given it.
unfoldable pub chat_message : ℕ → Client → Frame → ClawMessage
unfolding chat_text
chat_message now c f =
    let text = chat_text c f in
    let closing = f.state == codes "final" in
    record {
      msg_id = truthy_or c.active_msg_id (codes "proactive");
      seq = f.seq;
      text = if closing then clean_text text else text;
      state = f.state;
      ts = now;
      media_paths = if closing then media_paths_of f.media_urls f.media_url text else [];
    }

unfoldable pub on_chat : ℕ → Client → Frame → Client × List Output
unfolding chat_message
on_chat now c f = (
  record c { aggregator = add_event c.aggregator (chat_message now c f) },
  when
        ((f.state == codes "partial" || f.state == codes "delta")
          && c.active_on_stream
          && truthy c.active_msg_id
          && not (is_empty (chat_text c f)))
        (stream (chat_text c f))
      ++ when (f.state == codes "final" && has c.agent_texts f.run_id) (cleanup f.run_id),
)

unfoldable pub on_cron : Client → Frame → Client × List Output
on_cron c f = (
  c,
  when (not (f.action == codes "removed" || is_empty f.summary) && c.on_proactive)
      (proactive f.summary),
)

-- Subagents' events and the gateway's own are dropped first.
unfoldable pub is_ignored : Frame → Bool
is_ignored f =
    (not (is_empty f.session_key) && contains f.session_key (codes ":subagent:"))
    || any (λ e. f.event == e) skip_events

-- `_dispatch`; `now` is the clock's reading.
unfoldable pub dispatch : ℕ → Client → Frame → Client × List Output
unfolding on_res on_agent on_chat on_cron is_ignored
dispatch now c f =
    if is_ignored f
    then (c, [])
    else if f.type == codes "res"
    then on_res c f
    else if f.event == codes "agent"
    then on_agent c f
    else if f.event == codes "chat"
    then on_chat now c f
    else if f.event == codes "cron"
    then on_cron c f
    else (c, [])

-- The test by which an aggregated message answers the pending request.
unfoldable pub answers_request : Client → ClawMessage → Bool
answers_request c m =
    pending_open c
    && same_id c.pending_future_msg_id (some m.msg_id)
    && not (same_id c.timed_out_msg_id c.pending_future_msg_id)

-- `_route_aggregated_message`
unfoldable pub route : Client → ClawMessage → Client × List Output
unfolding answers_request
route c m = if answers_request c m then (set_pending c (result m.text m.media_paths), []) else (
  if same_id c.timed_out_msg_id (some m.msg_id) then record c { timed_out_msg_id = none } else c,
  when (c.on_proactive && not (is_empty m.text)) (proactive m.text),
)
