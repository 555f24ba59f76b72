-- ===== src/Rollout/Persisted.antt =====
-- rollout/policy.rs and rollout/reconstruction.rs together: logs that are filtered or cut off.
use cloud_agent.Base.{
  ◌≡◌, refl, ◌∙◌, ◌⊎◌, sym, ap, false, Option, none, some, List, [], ◌∷◌, ◌++◌, Bool-cases,
  Option-cases, inl, inr,
}
use cloud_agent.Base.Text.{Text}
use cloud_agent.Data.Response.{ResponseItem, ConversationHistory, system, user, assistant, tool}
use cloud_agent.Data.Event.{
  EventMsg, turn_completed, turn_failed, turn_cancelled, RolloutItem, event_msg, response_item,
  compacted,
}
use cloud_agent.Conversation.History
use cloud_agent.Conversation.Outputs.{and_then}
use cloud_agent.Rollout.Policy.{
  limited, should_persist_response_item, should_persist_event_msg_limited, should_persist_event_msg,
  persisted_rollout_item, persisted_rollout_items,
}
use cloud_agent.Rollout.Replay.{
  Replaying, replay_event, replay_item, replay_items, replay_model_history_suffix, find_checkpoint,
  replacement_of, Checkpoint, later_or, restored, ensure_outputs, checkpoint_history,
  latest_compaction_checkpoint, start_of, conversation_history_from_rollout_items,
}

dropped_event :
    (event : EventMsg) (r : Replaying)
    → should_persist_event_msg_limited event ≡ false
    → replay_event event r ≡ r
unfolding should_persist_event_msg_limited replay_event
dropped_event (turn_completed turn_id) r h = cc
dropped_event (turn_failed turn_id error) r h = cc
dropped_event (turn_cancelled turn_id reason) r h = cc
dropped_event event r h = refl

-- An item stays as it is, or is dropped and then changes no state of the replay and is no
-- checkpoint.
persisted_rollout_item_cases :
    (item : RolloutItem)
    → (persisted_rollout_item item limited ≡ some item)
      ⊎ ((persisted_rollout_item item limited ≡ none)
          × ((r : Replaying) → replay_item item r ≡ some r)
          × (replacement_of item ≡ none))
unfolding persisted_rollout_item should_persist_event_msg replay_item replacement_of
    should_persist_response_item
persisted_rollout_item_cases (event_msg event) =
    elim (Bool-cases (should_persist_event_msg_limited event)) [
      | inl kept ↦ inl (rw kept)
      | inr dropped ↦ inr (rw dropped, λ r. ap some (dropped_event event r dropped), refl)
    ]
persisted_rollout_item_cases (response_item (system content)) = inl refl
persisted_rollout_item_cases (response_item (user content)) = inl refl
persisted_rollout_item_cases (response_item (assistant content reasoning calls)) = inl refl
persisted_rollout_item_cases (response_item (tool call_id name content structured)) = inl refl
persisted_rollout_item_cases (compacted summary text trigger reason phase replacement) = inl refl

replay_items-persisted :
    (items : List RolloutItem) (r : Replaying)
    → replay_items (persisted_rollout_items items limited) r ≡ replay_items items r
unfolding persisted_rollout_items replay_items
replay_items-persisted [] r = refl
replay_items-persisted (item ∷ items) r = elim (persisted_rollout_item_cases item) [
  | inl kept ↦
      rw (kept, replay_items) (continue (replay_item item r) (replay_items-persisted items))
  | inr (dropped, same, _) ↦ rw (dropped, same r) (replay_items-persisted items r)
]
  where
    continue :
        (q : Option Replaying)
        → ((r : Replaying)
            → replay_items (persisted_rollout_items items limited) r ≡ replay_items items r)
        → and_then q (replay_items (persisted_rollout_items items limited))
          ≡ and_then q (replay_items items)
    continue none ih = refl
    continue (some q) ih = ih q

abbrev persisted_checkpoint : Checkpoint → Checkpoint
persisted_checkpoint none = none
persisted_checkpoint (some (replacement, suffix)) =
    some (replacement, persisted_rollout_items suffix limited)

later_or-persisted :
    (found : Checkpoint) (here : Option (List ResponseItem)) (items : List RolloutItem)
    → later_or (persisted_checkpoint found) here (persisted_rollout_items items limited)
      ≡ persisted_checkpoint (later_or found here items)
later_or-persisted (some found) here items = refl
later_or-persisted none (some replacement) items = refl
later_or-persisted none none items = refl

later_or-none : (found : Checkpoint) (items : List RolloutItem) → later_or found none items ≡ found
later_or-none (some found) items = refl
later_or-none none items = refl

find_checkpoint-persisted :
    (items : List RolloutItem)
    → find_checkpoint (persisted_rollout_items items limited)
      ≡ persisted_checkpoint (find_checkpoint items)
unfolding persisted_rollout_items find_checkpoint
find_checkpoint-persisted [] = refl
find_checkpoint-persisted (item ∷ items) = elim (persisted_rollout_item_cases item) [
  | inl kept ↦
      rw (kept, find_checkpoint-persisted items)
        (later_or-persisted (find_checkpoint items) (replacement_of item) items)
  | inr (dropped, _, here) ↦
      rw (dropped, here, later_or-none (find_checkpoint items) items)
        (find_checkpoint-persisted items)
]

replay_suffix-persisted :
    (h : ConversationHistory) (items : List RolloutItem)
    → replay_model_history_suffix h (persisted_rollout_items items limited)
      ≡ replay_model_history_suffix h items
unfolding replay_model_history_suffix
replay_suffix-persisted h items = rw (replay_items-persisted items (h, none))

abbrev rebuild : Text → Text → List RolloutItem → Checkpoint → Option ConversationHistory
rebuild id prompt items found =
    let start = start_of id prompt items (restored id prompt found) in
    and_then (replay_model_history_suffix start.0 start.1) ensure_outputs

rebuild-persisted :
    (id prompt : Text) (items : List RolloutItem) (found : Checkpoint)
    → rebuild id prompt (persisted_rollout_items items limited) (persisted_checkpoint found)
      ≡ rebuild id prompt items found
rebuild-persisted id prompt items none = rw (replay_suffix-persisted (History.new id prompt) items)
rebuild-persisted id prompt items (some (replacement, suffix)) =
    rw (replay_suffix-persisted (checkpoint_history id prompt replacement) suffix)

-- Rebuilding a history from the items that the policy persists gives the same history as from all
-- items.
pub conversation_history-persisted :
    (id prompt : Text) (items : List RolloutItem)
    → conversation_history_from_rollout_items id prompt (persisted_rollout_items items limited)
      ≡ conversation_history_from_rollout_items id prompt items
unfolding conversation_history_from_rollout_items latest_compaction_checkpoint
conversation_history-persisted id prompt items =
    ap (rebuild id prompt (persisted_rollout_items items limited)) (find_checkpoint-persisted items)
    ∙ rebuild-persisted id prompt items (find_checkpoint items)

find_checkpoint-here :
    (checkpoint : RolloutItem) (after : List RolloutItem) (replacement : List ResponseItem)
    → replacement_of checkpoint ≡ some replacement
    → (found : List ResponseItem × List RolloutItem) × (find_checkpoint (checkpoint ∷ after)
        ≡ some found)
unfolding find_checkpoint
find_checkpoint-here checkpoint after replacement h = elim (Option-cases (find_checkpoint after)) [
  | inl e ↦ ((replacement, after), rw (e, h))
  | inr (later, e) ↦ (later, rw (e, later_or))
]

find_checkpoint-append :
    (before items : List RolloutItem) (found : List ResponseItem × List RolloutItem)
    → find_checkpoint items ≡ some found
    → find_checkpoint (before ++ items) ≡ some found
unfolding find_checkpoint
find_checkpoint-append [] items found h = h
find_checkpoint-append (item ∷ before) items found h =
    rw (find_checkpoint-append before items found h)

-- What is logged before a compaction with a nonempty replacement history has no effect on the
-- history that is rebuilt.
pub conversation_history-checkpoint :
    (id prompt : Text) (before after : List RolloutItem) (checkpoint : RolloutItem)
    (replacement : List ResponseItem)
    → replacement_of checkpoint ≡ some replacement
    → conversation_history_from_rollout_items id prompt (before ++ checkpoint ∷ after)
      ≡ conversation_history_from_rollout_items id prompt (checkpoint ∷ after)
unfolding conversation_history_from_rollout_items latest_compaction_checkpoint
conversation_history-checkpoint id prompt before after checkpoint replacement h =
    let (found, e) = find_checkpoint-here checkpoint after replacement h in
    let e' = find_checkpoint-append before (checkpoint ∷ after) found e in
    ap (rebuild id prompt (before ++ checkpoint ∷ after)) e'
    ∙ sym (ap (rebuild id prompt (checkpoint ∷ after)) e)
