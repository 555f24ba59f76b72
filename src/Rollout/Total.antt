-- ===== src/Rollout/Total.antt =====
-- Whether `conversation_history_from_rollout_items` of rollout/reconstruction.rs can panic.
use cloud_agent.Base.{
  ◌≤◌, ◌<◌, ◌≡◌, refl, Option, none, some, List, [], ◌∷◌, arith, length, inl, inr, Option-cases,
}
use mathlib.Core.List.{Sublistᴰ}
use cloud_agent.Base.Text.{Text}
use cloud_agent.Data.Response.{ResponseItem, ConversationHistory}
use cloud_agent.Data.Event.{RolloutItem, event_msg, response_item, compacted}
use cloud_agent.Conversation.History
use cloud_agent.Conversation.Outputs.Laws.{IsAnswered, ensure_tool_outputs_present_total}
use cloud_agent.Rollout.Replay.{
  Replaying, flush_pending_model_history_turn, replay_items, replay_model_history_suffix,
  find_checkpoint, replacement_of, normalize_compacted_replacement_history, checkpoint_history,
  latest_compaction_checkpoint, start_of, conversation_history_from_rollout_items,
}
use cloud_agent.Rollout.Open.{IsOpen, Goes, flush-IsOpen, replay_items-Goes}

replacement_of-some :
    (item : RolloutItem) (replacement : List ResponseItem)
    → replacement_of item ≡ some replacement
    → 0 < length replacement
unfolding replacement_of
replacement_of-some (compacted summary text trigger reason phase (m ∷ ms)) replacement h =
    ground (arith, h)
replacement_of-some (compacted summary text trigger reason phase []) replacement h = cc
replacement_of-some (event_msg event) replacement h = cc
replacement_of-some (response_item item) replacement h = cc

find_checkpoint-some :
    (items : List RolloutItem) (found : List ResponseItem × List RolloutItem)
    → find_checkpoint items ≡ some found
    → 0 < length found.0
unfolding find_checkpoint
find_checkpoint-some [] found h = cc
find_checkpoint-some (item ∷ items) found h = elim (Option-cases (find_checkpoint items)) [
  | inr (later, e) ↦ find_checkpoint-some items found (ground (arith, e, h))
  | inl e ↦ elim (Option-cases (replacement_of item)) [
    | inl none_here ↦ absurd (ground (arith, e, none_here, h))
    | inr (replacement, here) ↦
        ground (arith, e, here, h, replacement_of-some item replacement here)
  ]
]

checkpoint_history-IsOpen :
    (id prompt : Text) (replacement : List ResponseItem)
    → 0 < length replacement
    → IsOpen id (checkpoint_history id prompt replacement)
unfolding History.new normalize_compacted_replacement_history
checkpoint_history-IsOpen id prompt [] h = absurd (omega arith)
checkpoint_history-IsOpen id prompt (m ∷ ms) h = record {
  same_id = refl;
  some_message = omega arith;
}

start_of-IsOpen :
    (id prompt : Text) (items : List RolloutItem)
    → IsOpen id (start_of id prompt items (latest_compaction_checkpoint id prompt items)).0
unfolding latest_compaction_checkpoint
start_of-IsOpen id prompt items = elim (Option-cases (find_checkpoint items)) [
  | inl e ↦
      rw (e, latest_compaction_checkpoint)
        (unfold History.new in record { same_id = refl; some_message = omega arith })
  | inr (found, e) ↦
      rw (e, latest_compaction_checkpoint)
        (checkpoint_history-IsOpen id prompt found.0 (find_checkpoint-some items found e))
]

length-Sublistᴰ {ℓ} : {A : Type ℓ} {xs ys : List A} → Sublistᴰ xs ys → length xs ≤ length ys
length-Sublistᴰ Sublistᴰ.slnil = omega arith
length-Sublistᴰ (Sublistᴰ.cons s) = omega (arith, length-Sublistᴰ s)
length-Sublistᴰ (Sublistᴰ.cons-cons e s) = omega (arith, length-Sublistᴰ s)

-- From any log the history is rebuilt without a panic: under the conversation's id, with at least
-- one message, and with an output for every tool call.
pub conversation_history_from_rollout_items_total :
    (id prompt : Text) (items : List RolloutItem)
    → (h : ConversationHistory) × (conversation_history_from_rollout_items id prompt items ≡ some h)
      × IsOpen id h
      × IsAnswered h.messages h.messages
unfolding conversation_history_from_rollout_items replay_model_history_suffix
conversation_history_from_rollout_items_total id prompt items =
    finish (replay_items start.1 (start.0, none)) refl
      (replay_items-Goes id start.1 (start.0, none) (start_of-IsOpen id prompt items))
  where
    start : ConversationHistory × List RolloutItem
    start = start_of id prompt items (latest_compaction_checkpoint id prompt items)

    finish :
        (r : Option Replaying)
        → replay_items start.1 (start.0, none) ≡ r
        → Goes id r
        → (h : ConversationHistory) × (conversation_history_from_rollout_items id prompt items
            ≡ some h)
          × IsOpen id h
          × IsAnswered h.messages h.messages
    finish none e g = absurd g
    finish (some r) e g =
        let flushed = flush_pending_model_history_turn r.0 r.1 in
        let (out, done, answered, kept, stable) =
          ensure_tool_outputs_present_total flushed.messages in
        let o = flush-IsOpen id r.0 r.1 g in
        (
          record flushed { messages = out },
          rw e (rw done),
          record {
            same_id = o.same_id;
            some_message = omega (arith, length-Sublistᴰ kept, o.some_message);
          },
          answered,
        )
