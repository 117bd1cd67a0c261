-- ===== src/OpenClaw/Frame.antt =====
-- A gateway frame, with the defaults of its missing keys.
use claw_mux.Base.{
  ℕ, Bool, Option, none, some, List, [], ◌∷◌, is_empty, if◌then◌else◌, ◌==◌, text_key, Text, codes,
  join,
}

pub record Frame : Type 0 where
  pub event : Text
  pub type : Text
  pub ok : Bool
  pub error : Text
  pub session_key : Text
  pub run_id : Text
  pub state : Text
  pub stream : Text
  pub data_text : Text
  pub data_phase : Text
  pub data_error : Option Text
  pub seq : ℕ
  pub content : Option (List (Text × Text))  -- message.content: the type and text of each part
  pub text : Text
  pub media_urls : Option (List (Option Text))
  pub media_url : Option Text
  pub action : Text
  pub summary : Text

abbrev pub text_parts : List (Text × Text) → List Text
text_parts [] = []
text_parts ((kind, text) ∷ parts) =
    let rest = text_parts parts in
    if kind == codes "text" then (if is_empty text then rest else text ∷ rest) else rest

abbrev pub or_flat : List Text → Text → Text
or_flat [] flat = flat
or_flat (p ∷ ps) flat = join (codes "\n\n") (p ∷ ps)

abbrev pub content_parts : Option (List (Text × Text)) → List Text
content_parts none = []
content_parts (some parts) = text_parts parts

unfoldable pub extract_text : Frame → Text
extract_text f = or_flat (content_parts f.content) f.text
