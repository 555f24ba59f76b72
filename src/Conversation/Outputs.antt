-- ===== src/Conversation/Outputs.antt =====
-- `ensure_tool_outputs_present` of crates/agent-core/src/conversation/history.rs: a tool call with
-- no output gets one that says "aborted".
pub mod Fill
pub mod Laws
use cloud_agent.Base.{
  ℕ, zero, suc, Bool, true, false, ◌||◌, Option, none, some, List, [], ◌∷◌, ◌++◌, map, any,
  if◌then◌else◌,
}
use cloud_agent.Base.Text.{Text, codes, text_eq}
use cloud_agent.Data.Tool.{ToolCall, tool_error}
use cloud_agent.Data.Response.{ResponseItem, ConversationHistory, system, user, assistant, tool}

unfoldable pub is_output_of : Text → ResponseItem → Bool
is_output_of id (tool tool_call_id name content structured) = text_eq tool_call_id id
is_output_of id item = false

abbrev pub has_output : List ResponseItem → Text → Bool
has_output items id = any (is_output_of id) items

pub aborted_output : ToolCall → ResponseItem
aborted_output call =
    tool call.id call.name (codes "aborted") (some (tool_error call.name (codes "aborted")))

-- The inner loop: the outputs to insert for the calls of the item at `index`.
pub missing_calls : List ResponseItem → ℕ → List ToolCall → List (ℕ × ResponseItem)
missing_calls items index [] = []
missing_calls items index (call ∷ calls) =
    let rest = missing_calls items index calls in
    if has_output items call.id then rest else (index, aborted_output call) ∷ rest

missing_at : List ResponseItem → ℕ → ResponseItem → List (ℕ × ResponseItem)
unfolding missing_calls
missing_at items index (assistant content reasoning tool_calls) =
    missing_calls items index tool_calls
missing_at items index item = []

-- The outer loop, over the items from `index` on.
missing_outputs : List ResponseItem → ℕ → List ResponseItem → List (ℕ × ResponseItem)
unfolding missing_at
missing_outputs items index [] = []
missing_outputs items index (item ∷ rest) =
    missing_at items index item ++ missing_outputs items (suc index) rest

-- `Vec::insert`, which panics (`none`) beyond the end.
pub insert_at {ℓ} : {A : Type ℓ} → ℕ → A → List A → Option (List A)
insert_at zero x items = some (x ∷ items)
insert_at (suc index) x [] = none
insert_at (suc index) x (item ∷ items) = elim (insert_at index x items) [
  | none ↦ none
  | some rest ↦ some (item ∷ rest)
]

abbrev pub and_then {ℓ κ} : {A : Type ℓ} {B : Type κ} → Option A → (A → Option B) → Option B
and_then none f = none
and_then (some a) f = f a

-- The last loop inserts in reverse order, so that earlier indices stay valid.
insert_outputs : List (ℕ × ResponseItem) → List ResponseItem → Option (List ResponseItem)
unfolding insert_at
insert_outputs [] items = some items
insert_outputs ((index, item) ∷ outputs) items =
    and_then (insert_outputs outputs items) (insert_at (suc index) item)

-- `none` would be a panic.
pub ensure_tool_outputs_present : List ResponseItem → Option (List ResponseItem)
unfolding missing_outputs insert_outputs
ensure_tool_outputs_present items = insert_outputs (missing_outputs items 0 items) items
