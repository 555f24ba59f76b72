-- ===== src/Conversation/Markers.antt =====
-- crates/agent-core/src/context/markers.rs: the user items that stand for something else.
use cloud_agent.Base.{
  ◌≡◌, refl, Bool, true, false, ◌&&◌, not, Option, none, some, [], ◌∷◌, ◌++◌, last?, if◌then◌else◌,
  last?-append_one, arith,
}
use cloud_agent.Base.Text.{Text, codes, starts_with, trim_start}
use cloud_agent.Data.Input.{text_input_items, input_items_to_plain_text}
use cloud_agent.Data.Response.{ResponseItem, ConversationHistory, system, user, assistant, tool}

abbrev pub context_summary_prefix : Text
context_summary_prefix = codes "[Context Summary]"

abbrev turn_aborted_tag : Text
turn_aborted_tag = codes "<turn_aborted>"

abbrev pub turn_aborted_marker_text : Text
turn_aborted_marker_text =
    codes
      "<turn_aborted>\nThe user interrupted the previous turn on purpose. Any running commands or tools may have partially executed. Continue from the latest user request without assuming the interrupted turn completed.\n</turn_aborted>"

unfoldable pub turn_aborted_marker_item : ResponseItem
unfolding text_input_items
turn_aborted_marker_item = user (text_input_items turn_aborted_marker_text)

unfoldable pub is_context_summary_item : ResponseItem → Bool
unfolding trim_start starts_with input_items_to_plain_text
is_context_summary_item (system content) = starts_with (trim_start content) context_summary_prefix
is_context_summary_item (user content) =
    starts_with (trim_start (input_items_to_plain_text content)) context_summary_prefix
is_context_summary_item (assistant content reasoning tool_calls) = false
is_context_summary_item (tool tool_call_id name content structured) = false

pub is_turn_aborted_marker : ResponseItem → Bool
unfolding trim_start starts_with input_items_to_plain_text
is_turn_aborted_marker (user content) =
    starts_with (trim_start (input_items_to_plain_text content)) turn_aborted_tag
is_turn_aborted_marker item = false

abbrev is_user : ResponseItem → Bool
is_user (user content) = true
is_user item = false

unfoldable pub counts_as_real_user_turn : ResponseItem → Bool
unfolding is_context_summary_item is_turn_aborted_marker
counts_as_real_user_turn item =
    is_user item && (not (is_context_summary_item item) && not (is_turn_aborted_marker item))

abbrev pub is_some_and {ℓ} : {A : Type ℓ} → Option A → (A → Bool) → Bool
is_some_and none p = false
is_some_and (some a) p = p a

unfoldable pub append_turn_aborted_marker_if_needed : ConversationHistory → ConversationHistory
append_turn_aborted_marker_if_needed h =
    if is_some_and (last? h.messages) is_turn_aborted_marker
    then h
    else record h { messages = h.messages ++ turn_aborted_marker_item ∷ [] }

is_turn_aborted_marker_item : is_turn_aborted_marker turn_aborted_marker_item ≡ true
unfolding is_turn_aborted_marker turn_aborted_marker_item
is_turn_aborted_marker_item = refl

-- After the call the last message is an abort marker, and a second call changes nothing.
pub append_turn_aborted_marker_idem :
    (h : ConversationHistory)
    → let marked = append_turn_aborted_marker_if_needed h in
      (is_some_and (last? marked.messages) is_turn_aborted_marker ≡ true)
      × (append_turn_aborted_marker_if_needed marked ≡ marked)
unfolding append_turn_aborted_marker_if_needed
append_turn_aborted_marker_idem h =
    ground
      (arith, last?-append_one h.messages turn_aborted_marker_item, is_turn_aborted_marker_item)
