-- ===== src/Dify/Answered.antt =====
-- What is shown while an answer comes, and the answer.
use claw_mux.Base.{◌≡◌, ◌⊎◌, false, Option, none, some, List, [], ◌∷◌, ◌++◌, is_empty, Text}
use claw_mux.Web.Json.{Json}
use claw_mux.Dify.Stream.{State, Step, go_on, finished, failed, raised}
use claw_mux.Dify.Chat.{Conversations, Outcome}

-- The newest of the texts that were shown.
abbrev pub latest : List Text → Text
latest [] = []
latest (t ∷ ts) = t

-- Each text that was shown is longer than the one before it, which it begins with.
abbrev pub Growing : List Text → Type 0
Growing [] = Unit
Growing (t ∷ ts) =
    ((chunk : Text) × (is_empty chunk ≡ false) × (t ≡ latest ts ++ chunk)) × Growing ts

pub record Shown (s : State) : Type 0 where
  pub whole : latest s.streamed ≡ s.parts
  pub growing : Growing s.streamed

-- The state that a step leaves, if any, is as described.
abbrev Leaves : Step → Type 0
Leaves (go_on s) = Shown s
Leaves (finished s) = Shown s
Leaves (failed s) = Shown s
Leaves (raised s) = Shown s

module _ (parse : Text → Option Json) where
  module _ {C : Type 0} (cs : Conversations C) where
    -- The answer is the last text that was shown, unless it is empty or missing.
    abbrev pub IsAnswered : Outcome C → Type 0
    IsAnswered o =
        Growing o.streamed
        × ((o.answer ≡ none) ⊎ (o.answer ≡ some []) ⊎ (o.answer ≡ some (latest o.streamed)))
