-- ===== src/Compaction/Replacement.antt =====
-- crates/agent-core/src/context/compaction/replacement.rs: the history that replaces a compacted
-- one.
use cloud_agent.Base.{
  ℕ, ◌-◌, ◌≡◌, refl, false, some, List, [], ◌∷◌, ◌++◌, arith, length, keep, keep-append, keep_idem,
  ap, ◌∙◌, last?, last?-append_one,
}
use mathlib.Core.List.{append-nil}
use cloud_agent.Data.Input.{text_input_items}
use cloud_agent.Data.Response.{ResponseItem, system, user}
use cloud_agent.Data.Event.{CompactionSummary}
use cloud_agent.Conversation.Markers.{counts_as_real_user_turn}
use cloud_agent.Compaction.Plan.{ContextCompactionPlan}
use cloud_agent.Compaction.Plan.Boundary.{real_users}
use cloud_agent.Compaction.Summary.{rendered}
use cloud_agent.Compaction.Summary.Prefix.{rendered_is_summary}

pub record ContextCompactionResult : Type 0 where
  pub summary : CompactionSummary
  pub replacement_history : List ResponseItem

pub record CompactedReplacementHistory : Type 0 where
  pub messages : List ResponseItem
  pub preserved_user_count : ℕ

-- The `filter_map` keeps the user items that are real turns.
unfoldable recent_real_user_messages : List ResponseItem → List ResponseItem
recent_real_user_messages items = keep counts_as_real_user_turn items

unfoldable pub first_or_empty_system : List ResponseItem → ResponseItem
first_or_empty_system [] = system []
first_or_empty_system (m ∷ ms) = m

pub build_compacted_replacement_history :
    List ResponseItem → ContextCompactionPlan → CompactionSummary → CompactedReplacementHistory
unfolding recent_real_user_messages first_or_empty_system text_input_items
build_compacted_replacement_history source_messages plan summary =
    let kept =
      first_or_empty_system source_messages ∷ recent_real_user_messages plan.preserved_tail in
    record {
      messages = kept ++ user (text_input_items (rendered summary)) ∷ [];
      preserved_user_count = length kept - 1;
    }

-- `*messages = replacement` and the result hold the same list.
unfoldable apply_history_compaction :
    List ResponseItem
    → ContextCompactionPlan
    → CompactionSummary
    → List ResponseItem × ContextCompactionResult
unfolding build_compacted_replacement_history
apply_history_compaction messages plan summary =
    let replacement = (build_compacted_replacement_history messages plan summary).messages in
    (replacement, record { summary = summary; replacement_history = replacement })

users_of :
    (head : ResponseItem) (tail : List ResponseItem) (last : ResponseItem)
    → counts_as_real_user_turn head ≡ false
    → counts_as_real_user_turn last ≡ false
    → keep counts_as_real_user_turn ((head ∷ keep counts_as_real_user_turn tail) ++ last ∷ [])
      ≡ keep counts_as_real_user_turn tail
users_of head tail last h l = rw h (
    keep-append counts_as_real_user_turn (keep counts_as_real_user_turn tail) (last ∷ [])
    ∙ rw (l, keep_idem counts_as_real_user_turn tail, append-nil) refl)

-- The compacted history keeps exactly the real user turns of the preserved tail, in their order,
-- reports their number, and ends in the summary, if the source's first message is none of them.
pub build_compacted_replacement_history-users :
    (source : List ResponseItem) (plan : ContextCompactionPlan) (summary : CompactionSummary)
    → counts_as_real_user_turn (first_or_empty_system source) ≡ false
    → let r = build_compacted_replacement_history source plan summary in
      (keep counts_as_real_user_turn r.messages ≡ keep counts_as_real_user_turn plan.preserved_tail)
      × (r.preserved_user_count ≡ real_users r.messages)
      × (last? r.messages ≡ some (user (text_input_items (rendered summary))))
unfolding build_compacted_replacement_history
build_compacted_replacement_history-users source plan summary first =
    let summary_item = user (text_input_items (rendered summary)) in
    let kept = keep counts_as_real_user_turn plan.preserved_tail in
    let users =
      users_of (first_or_empty_system source) plan.preserved_tail summary_item first
        (rendered_is_summary summary).1 in
    (
      users,
      omega (arith, ap length users),
      last?-append_one (first_or_empty_system source ∷ kept) summary_item,
    )
