-- ===== src/State/Finish.antt =====
-- A turn in state/mod.rs from its start to its end.
use cloud_agent.Base.{
  ◌≡◌, refl, ◌∙◌, ap, false, Option, none, some, [], ◌∷◌, ◌++◌, is_some, not, keep, arith,
  Option-cases, inl, inr, if_false, keep-append,
}
use mathlib.Core.List.{append-nil}
use cloud_agent.Base.Text.{Text, text_eq_refl}
use cloud_agent.Base.Maps.{text_key, lookup}
use cloud_agent.Data.Event.{ServerRequest}
use cloud_agent.State.RequestIds.{RequestId}
use cloud_agent.State.Conversation
use cloud_agent.State.Conversation.{
  ConversationState, PendingConversationRequest, request_turn_id, is_of_turn,
}
use cloud_agent.State.Tokens.{CancellationTokens}
use cloud_agent.State.Agent.{
  AgentState, ActiveTurnHandle, AgentConversationEntry, entry_of, entry_or_new, put, modify,
  modify_or_new, on_conversation, conversation, started, finished, start_turn, finish_turn,
  set_pending_request,
}
use cloud_agent.State.Exclusive.{start_turn_idle}
use cloud_agent.State.Effects.{entry_of-put, entry_of_sound}

-- The state of a conversation once a turn has started, asked for approval and ended.
whole_turn : Text → RequestId → ServerRequest → ConversationState → ConversationState
whole_turn turn_id request_id request s =
    Conversation.clear_active_turn
      (Conversation.set_pending_request request_id request (Conversation.set_active_turn turn_id s))

whole_turn_lem :
    (turn_id : Text) (request_id : RequestId) (request : ServerRequest) (s : ConversationState)
    → s.active_turn ≡ none
    → request_turn_id request ≡ turn_id
    → keep (λ p. not (is_of_turn turn_id p)) s.pending_requests ≡ s.pending_requests
    → whole_turn turn_id request_id request s ≡ s
unfolding whole_turn Conversation.clear_active_turn Conversation.set_pending_request
    Conversation.set_active_turn Conversation.retained
whole_turn_lem turn_id request_id request s idle of_turn none_left = only_requests (
    keep-append (λ p. not (is_of_turn turn_id p)) s.pending_requests (new_request ∷ [])
    ∙ rw (none_left, of_turn, text_eq_refl turn_id) (append-nil s.pending_requests))
  where
    new_request : PendingConversationRequest
    new_request = record { request_id = request_id; request = request }

    only_requests :
        keep (λ p. not (is_of_turn turn_id p)) (s.pending_requests ++ new_request ∷ [])
          ≡ s.pending_requests
        → whole_turn turn_id request_id request s ≡ s
    only_requests h = rw (h, idle)

module _ (c : CancellationTokens) where
  open c use {new}

  entry_or_new-lookup :
      (id : Text) (a : AgentState c) (e : AgentConversationEntry c)
      → lookup id a.conversations ≡ some e
      → entry_or_new c id a ≡ e
  unfolding entry_or_new
  entry_or_new-lookup id a e h = rw (h, entry_or_new) refl

  modify_or_new-put :
      (f : AgentConversationEntry c → AgentConversationEntry c) (id : Text)
      (e : AgentConversationEntry c) (a : AgentState c)
      → a.poisoned ≡ false
      → modify_or_new c id f (put c id e a) ≡ put c id (f e) (put c id e a)
  modify_or_new-put f id e a sound =
      if_false a.poisoned (put c id e a)
        (put c id (f (entry_or_new c id (put c id e a))) (put c id e a)) sound
      ∙ ap (λ e'. put c id (f e') (put c id e a))
          (entry_or_new-lookup id (put c id e a) e
            (entry_of_sound c id (put c id e a) e (entry_of-put c id e a sound)).1)

  modify-put :
      (f : AgentConversationEntry c → AgentConversationEntry c) (id : Text)
      (e : AgentConversationEntry c) (a : AgentState c)
      → a.poisoned ≡ false
      → modify c id f (put c id e a) ≡ put c id (f e) (put c id e a)
  modify-put f id e a sound = rw (entry_of-put c id e a sound, modify)

  conversation-put :
      (id : Text) (e : AgentConversationEntry c) (a : AgentState c)
      → a.poisoned ≡ false
      → conversation c id (put c id e a) ≡ some e.conversation
  unfolding conversation
  conversation-put id e a sound = rw (entry_of-put c id e a sound, conversation)

  -- A turn that starts in an idle conversation, asks for one approval and ends leaves the
  -- conversation as it was, if no request of a turn of that id was pending before.
  pub finish_turn-start_turn :
      (id turn_id : Text) (request_id : RequestId) (request : ServerRequest) (a : AgentState c)
      (s : ConversationState)
      → conversation c id a ≡ some s
      → s.active_turn ≡ none
      → request_turn_id request ≡ turn_id
      → keep (λ p. not (is_of_turn turn_id p)) s.pending_requests ≡ s.pending_requests
      → conversation c id (
          finish_turn c id
            (set_pending_request c id request_id request (start_turn c id turn_id a).1))
        ≡ some s
  unfolding conversation finish_turn set_pending_request whole_turn
  finish_turn-start_turn id turn_id request_id request a s h idle of_turn none_left =
      elim (Option-cases (entry_of c id a)) [
        | inl none_there ↦ absurd (ground (arith, h, none_there))
        | inr (e, there) ↦
            let (sound, here) = entry_of_sound c id a e there in
            let t = (new a.tokens).0 in
            let a1 = record a { tokens = (new a.tokens).1 } in
            let was = entry_or_new-lookup id a e here in
            let q : (entry_or_new c id a).conversation ≡ s = rw (was) (ground (arith, h, there)) in
            let e1 = started c turn_id t (entry_or_new c id a) in
            let request_it =
              on_conversation c (Conversation.set_pending_request request_id request) in
            let finish = finished c in
            ap
              (λ (r : Option (ActiveTurnHandle c) × AgentState c).
                conversation c id
                  (finish_turn c id (set_pending_request c id request_id request r.1)))
              (start_turn_idle c id turn_id a sound
                (ap (λ s. is_some s.active_turn) q ∙ ap is_some idle))
            ∙ ap (λ x. conversation c id (finish_turn c id x))
                (modify_or_new-put request_it id e1 a1 sound)
            ∙ ap (conversation c id) (modify-put finish id (request_it e1) (put c id e1 a1) sound)
            ∙ conversation-put id (finish (request_it e1))
                (put c id (request_it e1) (put c id e1 a1)) sound
            ∙ ap some (
                ap (whole_turn turn_id request_id request) q
                ∙ whole_turn_lem turn_id request_id request s idle of_turn none_left)
      ]
