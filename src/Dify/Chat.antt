-- ===== src/Dify/Chat.antt =====
-- `DifyClient.chat`. The cache of conversations (cachetools) is a parameter.
use claw_mux.Base.{ℕ, Bool, Option, none, some, List, [], is_empty, if◌then◌else◌, Text}
use claw_mux.Web.Json.{Json}
use claw_mux.Dify.Stream.{empty, Step, go_on, finished, failed, raised, read_lines}

pub record Conversations (C : Type 0) : Type 0 where
  pub get : C → Text → Text  -- "" where there is none
  pub put : C → Text → Text → C
  pub pop : C → Text → C

-- The body of the request.
pub record Request : Type 0 where
  pub query : Text
  pub user : Text
  pub conversation_id : Text

-- How a request ends: an HTTPError or the time-out after some lines, a status that is not 200, or
-- a whole response.
pub data Response : Type 0 where
  broken : List Text → Response
  status : ℕ → Response
  lines : List Text → Response

-- What the client returned or raised, what `on_stream` was given, the newest first, and the cache.
pub record Outcome (C : Type 0) : Type 0 where
  pub answer : Option Text  -- none is an exception
  pub streamed : List Text
  pub conversations : C

module _ {C : Type 0} (cs : Conversations C) (parse : Text → Option Json) (streams : Bool) where
  abbrev pub request : C → Text → Text → Request
  request c user message = record { query = message; user = user; conversation_id = cs.get c user }

  abbrev pub persist : C → Text → Text → C
  persist c user id = if is_empty id then c else cs.put c user id

  -- What `_stream_chat` returns at the end of the loop, and what `chat` makes of it.
  abbrev pub ended : C → Text → Step → Outcome C
  ended c user (go_on s) = record {
    answer = some s.parts;
    streamed = s.streamed;
    conversations = persist c user s.conversation_id;
  }
  ended c user (finished s) = record {
    answer = some s.parts;
    streamed = s.streamed;
    conversations = persist c user s.conversation_id;
  }
  ended c user (failed s) = record {
    answer = some [];
    streamed = s.streamed;
    conversations = persist c user s.conversation_id;
  }
  ended c user (raised s) = record { answer = none; streamed = s.streamed; conversations = c }

  -- Lines that end without an end: what was streamed stays shown.
  abbrev pub cut : C → Step → Outcome C
  cut c (go_on s) = record { answer = some []; streamed = s.streamed; conversations = c }
  cut c (finished s) = record { answer = some []; streamed = s.streamed; conversations = c }
  cut c (failed s) = record { answer = some []; streamed = s.streamed; conversations = c }
  cut c (raised s) = record { answer = none; streamed = s.streamed; conversations = c }

  abbrev pub answered : C → Text → Response → Outcome C
  answered c user (broken ls) = cut c (read_lines parse streams ls empty)
  answered c user (status n) = record { answer = some []; streamed = []; conversations = c }
  answered c user (lines ls) = ended c user (read_lines parse streams ls empty)

  unfoldable pub chat : (Request → Response) → C → Text → Text → Outcome C
  chat send c user message = answered c user (send (request c user message))

  unfoldable pub get_conversation_id : C → Text → Text
  get_conversation_id c user = cs.get c user

  unfoldable pub clear_conversation : C → Text → C
  clear_conversation c user = cs.pop c user
