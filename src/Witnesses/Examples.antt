-- ===== src/Witnesses/Examples.antt =====
-- A short conversation with tool calls, shared by the witnesses.
use cloud_agent.Base.{none, some, List, [], ◌∷◌}
use cloud_agent.Base.Text.{codes}
use cloud_agent.Data.Input.{InputItem, text}
use cloud_agent.Data.Tool.{built_in, ToolCall}
use cloud_agent.Data.Response.{ResponseItem, ConversationHistory, system, user, assistant, tool}

abbrev pub say : List InputItem
say = text (codes "hi") ∷ []

abbrev pub read_call : ToolCall
read_call = record {
  id = codes "c1";
  name = codes "read";
  identity = record { source = built_in; namespace = none; wire_name = codes "read" };
  arguments = codes "{}";
}

abbrev pub calling : ResponseItem
calling = assistant none none (read_call ∷ [])

abbrev pub answer : ResponseItem
answer = assistant (some (codes "ok")) none []

abbrev pub output : ResponseItem
output = tool (codes "c1") (codes "read") (codes "x") none

-- The call has no output yet.
abbrev pub open_call : List ResponseItem
open_call = system (codes "s") ∷ user say ∷ calling ∷ []

abbrev pub closed_call : List ResponseItem
closed_call = system (codes "s") ∷ user say ∷ calling ∷ output ∷ []

abbrev pub history : ConversationHistory
history = record { id = codes "a"; turn_count = 1; messages = closed_call }

-- Two turns, the second with a call and its output.
abbrev pub two_turns : List ResponseItem
two_turns =
    system (codes "s") ∷ user say ∷ answer ∷ answer ∷ user say ∷ calling ∷ output ∷ answer ∷ []
