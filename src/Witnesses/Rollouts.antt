-- ===== src/Witnesses/Rollouts.antt =====
-- The theorems on rollout logs, applied.
use cloud_agent.Base.{◌≡◌, refl, none, some, List, [], ◌∷◌, ◌++◌}
use cloud_agent.Base.Text.{codes}
use cloud_agent.Data.Response.{ConversationHistory, user}
use cloud_agent.Data.Event.{
  RolloutItem, event_msg, response_item, compacted, turn_started, model_request_started,
  turn_cancelled, CompactionSummary, manual, user_requested, standalone_turn,
}
use cloud_agent.Conversation.Outputs.Laws.{IsAnswered}
use cloud_agent.Rollout.Policy.{limited, persisted_rollout_items}
use cloud_agent.Rollout.Replay.{
  replacement_of, replay_items, flush_pending_model_history_turn,
  conversation_history_from_rollout_items,
}
use cloud_agent.Rollout.Open.{IsOpen}
use cloud_agent.Rollout.Total.{conversation_history_from_rollout_items_total}
use cloud_agent.Rollout.Persisted.{conversation_history-persisted, conversation_history-checkpoint}
use cloud_agent.Rollout.Turns.{logged, after_turn, replay_items-logged}
use cloud_agent.Witnesses.Examples.{say, calling, output, history, closed_call}

abbrev log : List RolloutItem
log =
    event_msg (turn_started (codes "t1") (codes "a") say)
    ∷ response_item (user say)
    ∷ event_msg (model_request_started (codes "t1") 2 1)
    ∷ response_item calling
    ∷ event_msg (turn_cancelled (codes "t1") (codes "stop"))
    ∷ []

abbrev no_summary : CompactionSummary
no_summary = record {
  current_task = [];
  progress = [];
  key_decisions = [];
  important_context = [];
  tool_code_facts = [];
  next_steps = [];
}

abbrev checkpoint : RolloutItem
checkpoint = compacted no_summary (codes "x") manual user_requested standalone_turn closed_call

conversation_history_from_rollout_items_total_example :
    (h : ConversationHistory) × (conversation_history_from_rollout_items (codes "a") (codes "s") log
      ≡ some h)
    × IsOpen (codes "a") h
    × IsAnswered h.messages h.messages
conversation_history_from_rollout_items_total_example =
    conversation_history_from_rollout_items_total (codes "a") (codes "s") log

conversation_history-persisted_example :
    conversation_history_from_rollout_items
      (codes "a")
      (codes "s")
      (persisted_rollout_items log limited)
    ≡ conversation_history_from_rollout_items (codes "a") (codes "s") log
conversation_history-persisted_example = conversation_history-persisted (codes "a") (codes "s") log

conversation_history-checkpoint_example :
    conversation_history_from_rollout_items (codes "a") (codes "s") (log ++ checkpoint ∷ log)
    ≡ conversation_history_from_rollout_items (codes "a") (codes "s") (checkpoint ∷ log)
unfolding replacement_of
conversation_history-checkpoint_example =
    conversation_history-checkpoint (codes "a") (codes "s") log log checkpoint closed_call refl

replay_items-logged_example :
    replay_items
      (logged say (calling ∷ output ∷ []) (turn_cancelled (codes "t1") (codes "stop")))
      (history, none)
    ≡ some (
      after_turn say
          (calling ∷ output ∷ [])
          (turn_cancelled (codes "t1") (codes "stop"))
          (flush_pending_model_history_turn history none),
      none,
    )
replay_items-logged_example =
    replay_items-logged history none say (calling ∷ output ∷ [])
      (turn_cancelled (codes "t1") (codes "stop")) (refl, (refl, tt)) refl
