-- ===== src/Conversation/History.antt =====
-- ConversationHistory of crates/agent-core/src/conversation/history.rs. A method on `&mut self`
-- returns the new history, with its result where it has one.
use cloud_agent.Base.{
  ◌-◌, ◌+◌, ◌<◌, ◌≡◌, refl, ◌⊎◌, inl, inr, Bool, true, false, Option, none, some, List, [], ◌∷◌,
  ◌++◌, arith, last?, drop_last, last?-append_one, drop_last-append_one, last?-split, wrapping_add,
  if◌then◌else◌, holds, holds_iff, Bool-cases, ap,
}
use cloud_agent.Base.Text.{Text}
use cloud_agent.Data.Input.{InputItem, InputItems-discrete}
use cloud_agent.Data.Tool.{ToolCall, ToolResult}
use cloud_agent.Data.Response.{ResponseItem, ConversationHistory, system, user, assistant, tool}

unfoldable pub new : Text → Text → ConversationHistory
new id system_prompt = record { id = id; turn_count = 0; messages = system system_prompt ∷ [] }

-- `self.turn_count += 1` wraps in a release build.
pub push_user_message : ConversationHistory → List InputItem → ConversationHistory × ResponseItem
push_user_message h content = (
  record h { turn_count = wrapping_add h.turn_count 1; messages = h.messages ++ user content ∷ [] },
  user content,
)

same_content : Option ResponseItem → List InputItem → Bool
unfolding InputItems-discrete
same_content (some (user content)) expected = holds (InputItems-discrete content expected)
same_content _ expected = false

unfoldable rollback_user : ConversationHistory → List InputItem → ConversationHistory × Bool
unfolding same_content
rollback_user h expected =
    if same_content (last? h.messages) expected
    then (record h { turn_count = h.turn_count - 1; messages = drop_last h.messages }, true)
    else (h, false)

pub rollback_last_user_message : ConversationHistory → ResponseItem → ConversationHistory × Bool
unfolding rollback_user
rollback_last_user_message h (user content) = rollback_user h content
rollback_last_user_message h expected = (h, false)

unfoldable push_assistant_message :
    ConversationHistory
    → Option Text
    → Option Text
    → List ToolCall
    → ConversationHistory × ResponseItem
push_assistant_message h content reasoning tool_calls =
    let item = assistant content reasoning tool_calls in
    (record h { messages = h.messages ++ item ∷ [] }, item)

unfoldable push_tool_result : ConversationHistory → ToolResult → ConversationHistory × ResponseItem
push_tool_result h r =
    let item = tool r.tool_call_id r.name r.content r.structured in
    (record h { messages = h.messages ++ item ∷ [] }, item)

ensure_system : List ResponseItem → Text → List ResponseItem
ensure_system (system content ∷ items) prompt = system content ∷ items
ensure_system items prompt = system prompt ∷ items

unfoldable ensure_system_prompt : ConversationHistory → Text → ConversationHistory
unfolding ensure_system
ensure_system_prompt h prompt = record h { messages = ensure_system h.messages prompt }

same_content_refl : (content : List InputItem) → same_content (some (user content)) content ≡ true
unfolding same_content
same_content_refl content = (holds_iff (InputItems-discrete content content)).1 refl

same_content_sound :
    (last : Option ResponseItem) (expected : List InputItem)
    → same_content last expected ≡ true
    → last ≡ some (user expected)
unfolding same_content
same_content_sound none expected h = cc
same_content_sound (some (user content)) expected h =
    ap (λ c. some (user c)) ((holds_iff (InputItems-discrete content expected)).0 h)
same_content_sound (some (system content)) expected h = cc
same_content_sound (some (assistant content reasoning tool_calls)) expected h = cc
same_content_sound (some (tool tool_call_id name content structured)) expected h = cc

-- Rolling back the user message that was just pushed restores the history and reports success, as
-- long as the turn counter has not reached the end of u64.
pub rollback-push :
    (h : ConversationHistory) (content : List InputItem)
    → h.turn_count + 1 < 18446744073709551616
    → let (pushed, item) = push_user_message h content in
      rollback_last_user_message pushed item ≡ (h, true)
unfolding rollback_last_user_message push_user_message
rollback-push h content bound = ground (
  arith,
  same_content_refl content,
  last?-append_one h.messages (user content),
  drop_last-append_one h.messages (user content),
)

-- A rollback that reports failure leaves the history as it was, and one that reports success has
-- taken off exactly the last message, a user message with the expected content.
pub rollback_effect :
    (h : ConversationHistory) (expected : ResponseItem)
    → let (after, done) = rollback_last_user_message h expected in
      ((done ≡ false) × (after ≡ h))
      ⊎ ((done ≡ true)
          × (last? h.messages ≡ some expected)
          × (h.messages ≡ after.messages ++ expected ∷ [])
          × (after.turn_count ≡ h.turn_count - 1))
unfolding rollback_last_user_message
rollback_effect h (user content) = elim (Bool-cases (same_content (last? h.messages) content)) [
  | inl same ↦
      let last = same_content_sound (last? h.messages) content same in
      ground (arith, same, last, last?-split h.messages (user content) last)
  | inr other ↦ ground (arith, other)
]
rollback_effect h (system content) = inl (refl, refl)
rollback_effect h (assistant content reasoning tool_calls) = inl (refl, refl)
rollback_effect h (tool tool_call_id name content structured) = inl (refl, refl)
