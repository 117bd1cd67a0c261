-- ===== src/Telegram/Send.antt =====
-- What the Telegram adapter sends, and the texts of the errors that it raises.
use claw_mux.Base.{
  ℕ, ◌+◌, ◌*◌, ◌-◌, Bool, not, ◌&&◌, ◌||◌, Option, none, some, List, [], ◌∷◌, any, nat_eq, is_empty,
  if◌then◌else◌, Text, codes, Result, ok, err,
}
use claw_mux.Base.Exec.{Exec, pure, raise, catch, ◌>>=◌}
use claw_mux.Files.Names.{basename}
use claw_mux.Web.Text.{replace, is_digit}
use claw_mux.Web.Json.{Json, str_of}
use claw_mux.Telegram.Update.{message_id_of}
use claw_mux.Telegram.Poll.{is_success}

-- A message's id as the API takes it: a number, or the text.
pub data PostId : Type 0 where
  number : ℕ → PostId
  other : Text → PostId

-- A file, by its content on this host or by the id that Telegram has given it.
pub data Document : Type 0 where
  uploaded : (filename path : Text) → Document
  known : Text → Document

pub data Request : Type 0 where
  send_message : (chat_id text : Text) → (thread : Option ℕ) → Request
  edit_message : (chat_id : Text) → PostId → (text : Text) → Request
  chat_action : (chat_id : Text) → (thread : Option ℕ) → Request
  send_document : (chat_id caption : Text) → Document → (thread : Option ℕ) → Request

-- The request raises an HTTPError or another exception, with a text, or there is a response: the
-- status, the text of the exception that `raise_for_status` makes of it, and the body.
pub data Reply : Type 0 where
  http_error : Text → Reply
  other_error : Text → Reply
  replied : ℕ → Text → Option Json → Reply

pub data Raised : Type 0 where
  http : Text → Raised  -- an httpx.HTTPError
  unexpected : Text → Raised  -- any other exception

-- str.isdigit()
unfoldable pub isdigit : Text → Bool
isdigit t = not (is_empty t) && not (any (λ c. not (is_digit c)) t)

unfoldable pub decimal_from : ℕ → Text → ℕ
decimal_from n [] = n
decimal_from n (c ∷ t) = decimal_from (10 * n + (c - b'0')) t

-- int(t) of digits
abbrev pub int : Text → ℕ
int t = decimal_from 0 t

abbrev pub thread_of : Text → Option ℕ
thread_of root = if isdigit root then some (int root) else none

abbrev pub post_id_of : Text → PostId
post_id_of post = if isdigit post then number (int post) else other post

-- The token is removed from a text.
unfoldable pub redact : Text → Text → Text
unfolding replace
redact token text = if is_empty token then text else replace text token (codes "***")

-- `reply` answers a request from those before it, the newest first; `isfile` is os.path.isfile, and
-- `unread` the text of an exception that opening or reading a file raises.
module _ (token : Text) (render : Json → Text) (reply : List Request → Reply) (isfile : Text → Bool)
    (unread : Text → Option Text) where
  abbrev pub Run : Type 0 → Type 0
  Run A = Exec (List Request) Raised A

  abbrev pub answered : Reply → Result Raised (ℕ × Text × Option Json)
  answered (http_error e) = err (http e)
  answered (other_error e) = err (unexpected e)
  answered (replied status e body) = ok (status, e, body)

  abbrev pub post : Request → Run (ℕ × Text × Option Json)
  post r log = (answered (reply (r ∷ log)), r ∷ log)

  -- `_check`
  unfoldable pub check : ℕ × Text × Option Json → Run (Option Json)
  unfolding redact
  check (status, e, body) = if is_success status then pure body else raise (http (redact token e))

  -- The id of the new message; a body of another shape raises.
  abbrev pub parse_id : Option Json → Option Json
  parse_id none = none
  parse_id (some body) = message_id_of body

  abbrev pub posted_id : Option Json → Run Text
  posted_id none = raise (unexpected [])
  posted_id (some id) = pure (str_of render id)

  abbrev pub redacted : Raised → Run Text
  redacted (http e) = raise (http (redact token e))
  redacted (unexpected e) = raise (unexpected e)

  abbrev pub checked_post : Request → Run Text
  checked_post r = do resp ← post r; body ← check resp; posted_id (parse_id body)

  unfoldable pub send_reply : Text → Text → Text → Run Text
  unfolding check
  send_reply channel message root =
      catch (checked_post (send_message channel message (thread_of root))) redacted

  abbrev pub accepts : ℕ → Bool
  accepts status = nat_eq status 200 || nat_eq status 400

  -- `except httpx.HTTPError`: only logged.
  abbrev pub warn : Raised → Run (Unit {0})
  warn (http e) = pure tt
  warn (unexpected e) = raise (unexpected e)

  abbrev pub check_edit : ℕ × Text × Option Json → Run (Unit {0})
  check_edit (status, e, body) =
      if accepts status || is_success status then pure tt else raise (http e)

  unfoldable pub update_reply : Text → Text → Text → Run (Unit {0})
  update_reply id message channel =
      if is_empty id || is_empty channel
      then pure tt
      else catch (do resp ← post (edit_message channel (post_id_of id) message); check_edit resp)
          warn

  -- Every exception is only logged.
  unfoldable pub send_typing : Text → Text → Run (Unit {0})
  send_typing channel parent =
      catch (do resp ← post (chat_action channel (thread_of parent)); pure tt) λ e. pure tt

  -- The document of a path or a file id; opening the file may raise.
  abbrev pub read_file : Text → Option Text → Run Document
  read_file item none = pure (uploaded (basename item) item)
  read_file item (some e) = raise (unexpected e)

  abbrev pub document_of : Text → Run Document
  document_of item = if isfile item then read_file item (unread item) else pure (known item)

  -- Only the first document has the caption; `last_id` is the id of the last message.
  unfoldable pub send_documents : Text → Text → Text → Text → List Text → Run Text
  unfolding check
  send_documents channel root last_id message [] = pure last_id
  send_documents channel root last_id message (item ∷ files) = do
    document ← document_of item
    id ← checked_post (send_document channel message document (thread_of root))
    send_documents channel root id [] files

  unfoldable pub send_post_with_files : Text → Text → List Text → Text → Run Text
  unfolding send_documents
  send_post_with_files channel message files root = send_documents channel root [] message files
