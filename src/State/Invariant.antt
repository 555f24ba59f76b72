-- ===== src/State/Invariant.antt =====
-- The entries that the calls of state/mod.rs lead to.
use cloud_agent.Base.{
  ◌≡◌, refl, ◌∙◌, Option, none, some, is_some, arith, Option-cases, inl, inr, if-holds,
}
use cloud_agent.Base.Text.{Text}
use cloud_agent.Base.Maps.{text_key, lookup, remove, Entries, insert-Entries, remove-Entries}
use cloud_agent.Conversation.History
use cloud_agent.Data.Response.{ConversationHistory}
use cloud_agent.Data.Event.{TurnState}
use cloud_agent.State.Conversation
use cloud_agent.State.Conversation.{ActiveConversationTurn, ConversationState}
use cloud_agent.State.Tokens.{CancellationTokens}
use cloud_agent.State.Agent.{
  AgentState, ActiveTurnHandle, AgentConversationEntry, new_entry, entry_of, entry_or_new, put,
  modify, modify_or_new, on_conversation, saved, cancel_turn, save_history, remove_conversation,
  started, start_turn, finish_turn, update_turn_state, as_cancelled, interrupted,
  interrupt_conversation, append_conversation_event, set_pending_request, resolve_pending_request,
}
use cloud_agent.State.Steps.{
  Step, saves, removes, starts, finishes, updates, interrupts, appends, requests, resolves,
  Reachable, created, stepped,
}

module _ (c : CancellationTokens) where
  open c use {Token, Store, new, cancel}

  -- The entry has a cancellation token just when it has an active turn, and its history carries
  -- the id it is kept under.
  abbrev pub IsEntry : Text → AgentConversationEntry c → Type 0
  IsEntry id e =
      (is_some e.cancellation_token ≡ is_some e.conversation.active_turn)
      × (e.conversation.context.id ≡ id)

  abbrev IsWellFormed : AgentState c → Type 0
  IsWellFormed a = Entries IsEntry a.conversations

  put-IsWellFormed :
      (id : Text) (e : AgentConversationEntry c) (a : AgentState c)
      → IsEntry id e
      → IsWellFormed a
      → IsWellFormed (put c id e a)
  put-IsWellFormed id e a he ha = insert-Entries IsEntry id e a.conversations he ha

  Keeps : (AgentConversationEntry c → AgentConversationEntry c) → Type 0
  Keeps f = (id : Text) (e : AgentConversationEntry c) → IsEntry id e → IsEntry id (f e)

  entry_of-IsEntry :
      (id : Text) (a : AgentState c) (e : AgentConversationEntry c)
      → IsWellFormed a
      → entry_of c id a ≡ some e
      → IsEntry id e
  unfolding entry_of
  entry_of-IsEntry id a e ha h = ha id e (ground (arith, h))

  entry_or_new-IsEntry :
      (id : Text) (a : AgentState c) → IsWellFormed a → IsEntry id (entry_or_new c id a)
  unfolding entry_or_new new_entry History.new Conversation.idle_state
  entry_or_new-IsEntry id a ha = elim (Option-cases (lookup id a.conversations)) [
    | inl e ↦ rw (e, entry_or_new) (refl, refl)
    | inr (entry, e) ↦ rw (e, entry_or_new) (ha id entry e)
  ]

  modify-IsWellFormed :
      (f : AgentConversationEntry c → AgentConversationEntry c) (id : Text) (a : AgentState c)
      → Keeps f
      → IsWellFormed a
      → IsWellFormed (modify c id f a)
  unfolding Keeps
  modify-IsWellFormed f id a k ha = elim (Option-cases (entry_of c id a)) [
    | inl e ↦ rw (e, modify) ha
    | inr (entry, e) ↦
        rw (e, modify)
          (put-IsWellFormed id (f entry) a (k id entry (entry_of-IsEntry id a entry ha e)) ha)
  ]

  modify_or_new-IsWellFormed :
      (f : AgentConversationEntry c → AgentConversationEntry c) (id : Text) (a : AgentState c)
      → Keeps f
      → IsWellFormed a
      → IsWellFormed (modify_or_new c id f a)
  unfolding Keeps
  modify_or_new-IsWellFormed f id a k ha =
      if-holds IsWellFormed a.poisoned a (put c id (f (entry_or_new c id a)) a) ha (
        put-IsWellFormed id (f (entry_or_new c id a)) a
          (k id (entry_or_new c id a) (entry_or_new-IsEntry id a ha)) ha)

  saved-IsEntry :
      (h : ConversationHistory) (o : Option (AgentConversationEntry c))
      → ((e : AgentConversationEntry c) → o ≡ some e → IsEntry h.id e)
      → IsEntry h.id (saved c h o)
  unfolding new_entry Conversation.idle_state
  saved-IsEntry h none k = (refl, refl)
  saved-IsEntry h (some e) k = ((k e refl).0, refl)

  save_history-IsWellFormed :
      (h : ConversationHistory) (a : AgentState c)
      → IsWellFormed a
      → IsWellFormed (save_history c h a)
  unfolding save_history
  save_history-IsWellFormed h a ha =
      let entry = saved c h (lookup h.id a.conversations) in
      if-holds IsWellFormed a.poisoned a (put c h.id entry a) ha
        (put-IsWellFormed h.id entry a (saved-IsEntry h (lookup h.id a.conversations) (ha h.id)) ha)

  remove_conversation-IsWellFormed :
      (id : Text) (a : AgentState c) → IsWellFormed a → IsWellFormed (remove_conversation c id a)
  unfolding remove_conversation
  remove_conversation-IsWellFormed id a ha =
      if-holds IsWellFormed a.poisoned a (record a { conversations = remove id a.conversations }) ha
        (remove-Entries IsEntry id a.conversations ha)

  start_turn-IsWellFormed :
      (id turn_id : Text) (a : AgentState c)
      → IsWellFormed a
      → IsWellFormed (start_turn c id turn_id a).1
  unfolding start_turn Conversation.set_active_turn
  start_turn-IsWellFormed id turn_id a ha =
      let (token, tokens) = new a.tokens in
      let a' = record a { tokens = tokens } in
      let entry = entry_or_new c id a in
      let he = entry_or_new-IsEntry id a ha in
      if-holds (λ (r : Option (ActiveTurnHandle c) × AgentState c). IsWellFormed r.1) a.poisoned _ _
        ha
        (if-holds (λ (r : Option (ActiveTurnHandle c) × AgentState c). IsWellFormed r.1)
          (is_some entry.conversation.active_turn) _ _ (put-IsWellFormed id entry a' he ha)
          (put-IsWellFormed id (started c turn_id token entry) a' (refl, he.1) ha))

  interrupted-IsWellFormed :
      (id : Text) (a : AgentState c) (e : AgentConversationEntry c) (t : Option Token)
      → IsEntry id e
      → IsWellFormed a
      → IsWellFormed (interrupted c id a e t).1
  interrupted-IsWellFormed id a e none he ha = ha
  interrupted-IsWellFormed id a e (some token) he ha =
      put-IsWellFormed id (cancel_turn c e) (record a { tokens = cancel token a.tokens })
        (he.0 ∙ still_active e.conversation.active_turn, he.1) ha
    where
      still_active : (t : Option ActiveConversationTurn) → is_some t ≡ is_some (as_cancelled c t)
      still_active none = refl
      still_active (some active) = refl

  interrupt-IsWellFormed :
      (id : Text) (a : AgentState c)
      → IsWellFormed a
      → IsWellFormed (interrupt_conversation c id a).1
  unfolding interrupt_conversation
  interrupt-IsWellFormed id a ha = elim (Option-cases (entry_of c id a)) [
    | inl e ↦ rw (e, interrupt_conversation) ha
    | inr (entry, e) ↦
        rw (e, interrupt_conversation)
          (interrupted-IsWellFormed id a entry entry.cancellation_token
            (entry_of-IsEntry id a entry ha e) ha)
  ]

  update-Keeps :
      (turn_id : Text) (s : TurnState)
      → Keeps (on_conversation c (Conversation.update_turn_state turn_id s))
  unfolding Keeps Conversation.update_turn_state Conversation.moved_to
  update-Keeps turn_id s id e he = (he.0 ∙ still_active e.conversation.active_turn, he.1)
    where
      still_active :
          (t : Option ActiveConversationTurn)
          → is_some t ≡ is_some (Conversation.moved_to turn_id s t)
      still_active none = refl
      still_active (some active) = refl

  -- A call keeps the invariant.
  Step-IsWellFormed : {a b : AgentState c} → Step c a b → IsWellFormed a → IsWellFormed b
  unfolding finish_turn update_turn_state append_conversation_event set_pending_request
      resolve_pending_request Keeps Conversation.clear_active_turn Conversation.append_event
      Conversation.set_pending_request Conversation.resolve_pending_request
  Step-IsWellFormed (saves h a) ha = save_history-IsWellFormed h a ha
  Step-IsWellFormed (removes id a) ha = remove_conversation-IsWellFormed id a ha
  Step-IsWellFormed (starts id turn_id a) ha = start_turn-IsWellFormed id turn_id a ha
  Step-IsWellFormed (finishes id a) ha = modify-IsWellFormed _ id a (λ id e he. (refl, he.1)) ha
  Step-IsWellFormed (updates id turn_id s a) ha =
      modify-IsWellFormed _ id a (update-Keeps turn_id s) ha
  Step-IsWellFormed (interrupts id a) ha = interrupt-IsWellFormed id a ha
  Step-IsWellFormed (appends id event a) ha =
      modify_or_new-IsWellFormed (on_conversation c (Conversation.append_event event)) id a
        (λ id e he. he) ha
  Step-IsWellFormed (requests id request_id request a) ha =
      modify_or_new-IsWellFormed
        (on_conversation c (Conversation.set_pending_request request_id request)) id a
        (λ id e he. he) ha
  Step-IsWellFormed (resolves id request_id a) ha =
      modify-IsWellFormed (on_conversation c (Conversation.resolve_pending_request request_id)) id a
        (λ id e he. he) ha

  pub Reachable-IsWellFormed : (a : AgentState c) → Reachable c a → IsWellFormed a
  unfolding lookup
  Reachable-IsWellFormed a (created system_prompt tokens) = λ id e h. cc
  Reachable-IsWellFormed b (stepped a _ r s) = Step-IsWellFormed s (Reachable-IsWellFormed a r)

  -- After any sequence of calls on a new agent, every conversation has a cancellation token just
  -- when it has an active turn, and its history carries the id under which it is kept.
  pub Reachable-IsEntry :
      (a : AgentState c) (id : Text) (e : AgentConversationEntry c)
      → Reachable c a
      → lookup id a.conversations ≡ some e
      → IsEntry id e
  Reachable-IsEntry a id e r h = Reachable-IsWellFormed a r id e h
