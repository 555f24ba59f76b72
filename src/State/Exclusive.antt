-- ===== src/State/Exclusive.antt =====
-- The starts of turns in one conversation (state/mod.rs).
use cloud_agent.Base.{
  ◌≡◌, refl, ◌∙◌, sym, ap, subst, Bool, true, false, Option, none, some, is_some, arith, Bool-cases,
  inl, inr,
}
use cloud_agent.Base.Text.{Text, text_eq}
use cloud_agent.Base.Maps.{text_key, insert, lookup-insert, eq_refl}
use cloud_agent.State.Conversation
use cloud_agent.State.Conversation.{ActiveConversationTurn, ConversationState}
use cloud_agent.State.Tokens.{CancellationTokens}
use cloud_agent.State.Agent.{
  AgentState, ActiveTurnHandle, entry_or_new, put, on_conversation, started, running_handle,
  start_turn, finish_turn, update_turn_state, append_conversation_event, set_pending_request,
  resolve_pending_request,
}
use cloud_agent.State.Steps.{
  Step, saves, removes, starts, finishes, updates, interrupts, appends, requests, resolves,
}
use cloud_agent.State.Busy.{
  turn_in, IsBusy, modify-IsBusy, modify_or_new-IsBusy, modify_apart-IsBusy, remove-IsBusy,
  save-IsBusy, start-IsBusy, interrupt-IsBusy, update-KeepsTurn, idle_entry, entry_or_new-only,
}

module _ (c : CancellationTokens) where
  open c use {new}

  -- The calls that end the turn of a conversation.
  abbrev releases : {a b : AgentState c} → Text → Step c a b → Bool
  releases id (finishes other a) = text_eq other id
  releases id (removes other a) = text_eq other id
  releases id s = false

  -- Only the end of its turn, or its removal, makes a busy conversation free.
  Step-IsBusy :
      {a b : AgentState c} (id turn_id : Text) (s : Step c a b)
      → releases id s ≡ false
      → IsBusy c id turn_id a
      → IsBusy c id turn_id b
  unfolding finish_turn update_turn_state append_conversation_event set_pending_request
      resolve_pending_request Conversation.append_event Conversation.set_pending_request
      Conversation.resolve_pending_request
  Step-IsBusy id turn_id (saves h a) r busy = save-IsBusy c id turn_id h a busy
  Step-IsBusy id turn_id (removes other a) r busy = remove-IsBusy c id turn_id other a r busy
  Step-IsBusy id turn_id (starts other new_id a) r busy =
      start-IsBusy c id turn_id other new_id a busy
  Step-IsBusy id turn_id (finishes other a) r busy =
      modify_apart-IsBusy c _ id turn_id other a r busy
  Step-IsBusy id turn_id (updates other t s a) r busy =
      modify-IsBusy c _ id turn_id other a (update-KeepsTurn c t s) busy
  Step-IsBusy id turn_id (interrupts other a) r busy = interrupt-IsBusy c id turn_id other a busy
  Step-IsBusy id turn_id (appends other event a) r busy =
      modify_or_new-IsBusy c (on_conversation c (Conversation.append_event event)) id turn_id other
        a (λ e. refl) busy
  Step-IsBusy id turn_id (requests other request_id request a) r busy =
      modify_or_new-IsBusy c
        (on_conversation c (Conversation.set_pending_request request_id request)) id turn_id other a
        (λ e. refl) busy
  Step-IsBusy id turn_id (resolves other request_id a) r busy =
      modify-IsBusy c (on_conversation c (Conversation.resolve_pending_request request_id)) id
        turn_id other a (λ e. refl) busy

  -- Calls one after the other, none of which ends the turn of the conversation.
  pub data Holding (id : Text) : AgentState c → AgentState c → Type 0 where
    done : (a : AgentState c) → Holding id a a
    followed :
        (a b d : AgentState c) (s : Step c a b)
        → releases id s ≡ false
        → Holding id b d
        → Holding id a d

  Holding-IsBusy :
      (id turn_id : Text) (a b : AgentState c)
      → Holding id a b
      → IsBusy c id turn_id a
      → IsBusy c id turn_id b
  Holding-IsBusy id turn_id a _ (done _) busy = busy
  Holding-IsBusy id turn_id a _ (followed _ b d s r rest) busy =
      Holding-IsBusy id turn_id b d rest (Step-IsBusy id turn_id s r busy)

  start_turn_busy :
      (id turn_id : Text) (a : AgentState c)
      → a.poisoned ≡ false
      → is_some (entry_or_new c id a).conversation.active_turn ≡ true
      → (start_turn c id turn_id a).0 ≡ none
  unfolding start_turn entry_or_new
  start_turn_busy id turn_id a sound busy = rw (sound, busy)

  pub start_turn_idle :
      (id turn_id : Text) (a : AgentState c)
      → a.poisoned ≡ false
      → is_some (entry_or_new c id a).conversation.active_turn ≡ false
      → start_turn c id turn_id a ≡ (
        some (running_handle c turn_id (new a.tokens).0),
        put c id
            (started c turn_id (new a.tokens).0 (entry_or_new c id a))
            (record a { tokens = (new a.tokens).1 }),
      )
  unfolding start_turn entry_or_new insert
  start_turn_idle id turn_id a sound idle = rw (sound, idle)

  -- A turn that starts makes its conversation busy.
  started-IsBusy :
      (id turn_id : Text) (a : AgentState c)
      → a.poisoned ≡ false
      → is_some (start_turn c id turn_id a).0 ≡ true
      → IsBusy c id turn_id (start_turn c id turn_id a).1
  unfolding Conversation.set_active_turn
  started-IsBusy id turn_id a sound h =
      let entry = entry_or_new c id a in
      let e' = started c turn_id (new a.tokens).0 entry in
      elim (Bool-cases (is_some entry.conversation.active_turn)) [
        | inl e ↦ absurd (ground (arith, start_turn_busy id turn_id a sound e, h))
        | inr idle ↦
            subst (λ (r : Option (ActiveTurnHandle c) × AgentState c). IsBusy c id turn_id r.1)
              (sym (start_turn_idle id turn_id a sound idle))
              (
                sound,
                (e', ground (arith, lookup-insert id id e' a.conversations, eq_refl id), refl),
              )
      ]

  busy_is_rejected :
      (id turn_id new_id : Text) (a : AgentState c)
      → IsBusy c id turn_id a
      → (start_turn c id new_id a).0 ≡ none
  busy_is_rejected id turn_id new_id a (sound, (e, h, t)) =
      elim (Bool-cases (is_some (entry_or_new c id a).conversation.active_turn)) [
        | inl busy ↦ start_turn_busy id new_id a sound busy
        | inr idle ↦ absurd (
            idle_entry c (entry_or_new c id a).conversation.active_turn turn_id idle
              (ap (turn_in c) (sym (entry_or_new-only c id a e h)) ∙ t))
      ]

  -- Once a turn has started, and as long as no call ends the turn or removes the conversation,
  -- whatever other calls are made on whatever conversations, it stays the active turn of its
  -- conversation and every other start of a turn there is refused. The lock is not poisoned.
  pub start_turn_exclusive :
      (id turn_id new_id : Text) (a b : AgentState c)
      → a.poisoned ≡ false
      → is_some (start_turn c id turn_id a).0 ≡ true
      → Holding id (start_turn c id turn_id a).1 b
      → IsBusy c id turn_id b × ((start_turn c id new_id b).0 ≡ none)
  start_turn_exclusive id turn_id new_id a b sound h calls =
      let busy =
        Holding-IsBusy id turn_id (start_turn c id turn_id a).1 b calls
          (started-IsBusy id turn_id a sound h) in
      (busy, busy_is_rejected id turn_id new_id b busy)
