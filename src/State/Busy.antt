-- ===== src/State/Busy.antt =====
-- Conversations with an active turn, and the calls of state/mod.rs on them.
use cloud_agent.Base.{
  ◌≡◌, refl, ◌∙◌, sym, ap, false, Option, none, some, is_some, arith, Bool-cases, Option-cases, inl,
  inr, if-holds,
}
use cloud_agent.Base.Text.{Text, text_eq}
use cloud_agent.Base.Maps.{text_key, lookup, remove, lookup-insert, lookup-remove}
use cloud_agent.Data.Response.{ConversationHistory}
use cloud_agent.Data.Event.{TurnState}
use cloud_agent.State.Conversation
use cloud_agent.State.Conversation.{ActiveConversationTurn, ConversationState}
use cloud_agent.State.Tokens.{CancellationTokens}
use cloud_agent.State.Agent.{
  AgentState, ActiveTurnHandle, AgentConversationEntry, entry_of, entry_or_new, put, modify,
  modify_or_new, on_conversation, saved, cancel_turn, save_history, remove_conversation, started,
  start_turn, as_cancelled, interrupted, interrupt_conversation,
}

module _ (c : CancellationTokens) where
  open c use {Token, Store, new, cancel}

  abbrev id_of : Option ActiveConversationTurn → Option Text
  id_of none = none
  id_of (some active) = some active.turn_id

  abbrev pub turn_in : AgentConversationEntry c → Option Text
  turn_in e = id_of e.conversation.active_turn

  -- The lock is sound and the conversation has the active turn.
  abbrev pub IsBusy : Text → Text → AgentState c → Type 0
  IsBusy id turn_id a =
      (a.poisoned ≡ false)
      × ((e : AgentConversationEntry c) × (lookup id a.conversations ≡ some e)
          × (turn_in e ≡ some turn_id))

  put-IsBusy :
      (id turn_id other : Text) (e' : AgentConversationEntry c) (a : AgentState c)
      → ((e : AgentConversationEntry c)
          → lookup other a.conversations ≡ some e
          → turn_in e ≡ some turn_id
          → turn_in e' ≡ some turn_id)
      → IsBusy id turn_id a
      → IsBusy id turn_id (put c other e' a)
  put-IsBusy id turn_id other e' a k (sound, (e, h, t)) = elim (Bool-cases (text_key.eq other id)) [
    | inl same ↦ (
      sound,
      (
        e',
        ground (arith, lookup-insert other id e' a.conversations, same),
        k e (ap (λ j. lookup j a.conversations) ((text_key.eq_iff other id).0 same) ∙ h) t,
      ),
    )
    | inr apart ↦
        (sound, (e, ground (arith, lookup-insert other id e' a.conversations, apart, h), t))
  ]

  abbrev KeepsTurn : (AgentConversationEntry c → AgentConversationEntry c) → Type 0
  KeepsTurn f = (e : AgentConversationEntry c) → turn_in (f e) ≡ turn_in e

  changed-IsBusy :
      (f : AgentConversationEntry c → AgentConversationEntry c) (id turn_id other : Text)
      (e : AgentConversationEntry c) (a : AgentState c)
      → KeepsTurn f
      → ((e' : AgentConversationEntry c) → lookup other a.conversations ≡ some e' → e' ≡ e)
      → IsBusy id turn_id a
      → IsBusy id turn_id (put c other (f e) a)
  changed-IsBusy f id turn_id other e a k only busy =
      put-IsBusy id turn_id other (f e) a (λ e' h t. k e ∙ ap turn_in (sym (only e' h)) ∙ t) busy

  entry_of-only :
      (id : Text) (a : AgentState c) (e e' : AgentConversationEntry c)
      → entry_of c id a ≡ some e
      → lookup id a.conversations ≡ some e'
      → e' ≡ e
  unfolding entry_of
  entry_of-only id a e e' h h' = ground (arith, h, h')

  pub entry_or_new-only :
      (id : Text) (a : AgentState c) (e' : AgentConversationEntry c)
      → lookup id a.conversations ≡ some e'
      → e' ≡ entry_or_new c id a
  unfolding entry_or_new
  entry_or_new-only id a e' h = rw (h, entry_or_new) refl

  pub modify-IsBusy :
      (f : AgentConversationEntry c → AgentConversationEntry c) (id turn_id other : Text)
      (a : AgentState c)
      → KeepsTurn f
      → IsBusy id turn_id a
      → IsBusy id turn_id (modify c other f a)
  modify-IsBusy f id turn_id other a k busy = elim (Option-cases (entry_of c other a)) [
    | inl e ↦ rw (e, modify) busy
    | inr (entry, e) ↦
        rw (e, modify)
          (changed-IsBusy f id turn_id other entry a k (λ e' h. entry_of-only other a entry e' e h)
            busy)
  ]

  pub modify_or_new-IsBusy :
      (f : AgentConversationEntry c → AgentConversationEntry c) (id turn_id other : Text)
      (a : AgentState c)
      → KeepsTurn f
      → IsBusy id turn_id a
      → IsBusy id turn_id (modify_or_new c other f a)
  modify_or_new-IsBusy f id turn_id other a k busy =
      if-holds (IsBusy id turn_id) a.poisoned a (put c other (f (entry_or_new c other a)) a) busy (
        changed-IsBusy f id turn_id other (entry_or_new c other a) a k
          (λ e' h. entry_or_new-only other a e' h) busy)

  -- A release of another conversation.
  pub modify_apart-IsBusy :
      (f : AgentConversationEntry c → AgentConversationEntry c) (id turn_id other : Text)
      (a : AgentState c)
      → text_eq other id ≡ false
      → IsBusy id turn_id a
      → IsBusy id turn_id (modify c other f a)
  modify_apart-IsBusy f id turn_id other a apart (sound, (e, h, t)) =
      elim (Option-cases (entry_of c other a)) [
        | inl none_there ↦ rw (none_there, modify) (sound, (e, h, t))
        | inr (entry, there) ↦
            rw (there, modify)
              (
                sound,
                (e, ground (arith, lookup-insert other id (f entry) a.conversations, apart, h), t),
              )
      ]

  pub remove-IsBusy :
      (id turn_id other : Text) (a : AgentState c)
      → text_eq other id ≡ false
      → IsBusy id turn_id a
      → IsBusy id turn_id (remove_conversation c other a)
  unfolding remove_conversation
  remove-IsBusy id turn_id other a apart (sound, (e, h, t)) =
      if-holds (IsBusy id turn_id) a.poisoned a
        (record a { conversations = remove other a.conversations }) (sound, (e, h, t))
        (sound, (e, ground (arith, lookup-remove other id a.conversations, apart, h), t))

  pub save-IsBusy :
      (id turn_id : Text) (h : ConversationHistory) (a : AgentState c)
      → IsBusy id turn_id a
      → IsBusy id turn_id (save_history c h a)
  unfolding save_history
  save-IsBusy id turn_id h a busy =
      if-holds (IsBusy id turn_id) a.poisoned a
        (put c h.id (saved c h (lookup h.id a.conversations)) a) busy
        (put-IsBusy id turn_id h.id (saved c h (lookup h.id a.conversations)) a
          (λ e there t. rw (there) t) busy)

  pub idle_entry :
      (o : Option ActiveConversationTurn) (turn_id : Text)
      → is_some o ≡ false
      → ¬ (id_of o ≡ some turn_id)
  idle_entry none turn_id h e = cc
  idle_entry (some active) turn_id h e = cc

  pub start-IsBusy :
      (id turn_id other new_id : Text) (a : AgentState c)
      → IsBusy id turn_id a
      → IsBusy id turn_id (start_turn c other new_id a).1
  unfolding start_turn
  start-IsBusy id turn_id other new_id a busy =
      let (token, tokens) = new a.tokens in
      let a' = record a { tokens = tokens } in
      let entry = entry_or_new c other a in
      elim (Bool-cases (is_some entry.conversation.active_turn)) [
        | inl e ↦ rw (e) (
            if-holds (λ (r : Option (ActiveTurnHandle c) × AgentState c). IsBusy id turn_id r.1)
              a.poisoned _ _ busy
              (changed-IsBusy (λ e. e) id turn_id other entry a' (λ e. refl)
                (λ e' h. entry_or_new-only other a e' h) busy))
        | inr idle ↦ rw (idle) (
            if-holds (λ (r : Option (ActiveTurnHandle c) × AgentState c). IsBusy id turn_id r.1)
              a.poisoned _ _ busy
              (put-IsBusy id turn_id other (started c new_id token entry) a'
                (λ e h t. absurd (
                  idle_entry entry.conversation.active_turn turn_id idle
                    (ap turn_in (sym (entry_or_new-only other a e h)) ∙ t)))
                busy))
      ]

  interrupted-IsBusy :
      (id turn_id other : Text) (a : AgentState c) (entry : AgentConversationEntry c)
      (t : Option Token)
      → entry_of c other a ≡ some entry
      → IsBusy id turn_id a
      → IsBusy id turn_id (interrupted c other a entry t).1
  interrupted-IsBusy id turn_id other a entry none e busy = busy
  interrupted-IsBusy id turn_id other a entry (some token) e busy =
      changed-IsBusy (cancel_turn c) id turn_id other entry
        (record a { tokens = cancel token a.tokens }) (λ e. same_id e.conversation.active_turn)
        (λ e' h. entry_of-only other a entry e' e h) busy
    where
      same_id : (o : Option ActiveConversationTurn) → id_of (as_cancelled c o) ≡ id_of o
      same_id none = refl
      same_id (some active) = refl

  pub interrupt-IsBusy :
      (id turn_id other : Text) (a : AgentState c)
      → IsBusy id turn_id a
      → IsBusy id turn_id (interrupt_conversation c other a).1
  unfolding interrupt_conversation
  interrupt-IsBusy id turn_id other a busy = elim (Option-cases (entry_of c other a)) [
    | inl e ↦ rw (e, interrupt_conversation) busy
    | inr (entry, e) ↦
        rw (e, interrupt_conversation)
          (interrupted-IsBusy id turn_id other a entry entry.cancellation_token e busy)
  ]

  pub update-KeepsTurn :
      (turn_id : Text) (s : TurnState)
      → KeepsTurn (on_conversation c (Conversation.update_turn_state turn_id s))
  unfolding Conversation.update_turn_state Conversation.moved_to
  update-KeepsTurn turn_id s e = same_id e.conversation.active_turn
    where
      same_id :
          (o : Option ActiveConversationTurn) → id_of (Conversation.moved_to turn_id s o) ≡ id_of o
      same_id none = refl
      same_id (some active) = ground (arith)
