-- ===== src/State/Effects.antt =====
-- `interrupt_conversation` of state/mod.rs.
use cloud_agent.Base.{
  ◌≡◌, refl, ◌∙◌, sym, ap, subst, Bool, true, false, Option, none, some, is_some, arith,
  Option-cases, inl, inr,
}
use cloud_agent.Base.Text.{Text}
use cloud_agent.Base.Maps.{text_key, lookup, lookup-insert, eq_refl}
use cloud_agent.Data.Event.{cancelled}
use cloud_agent.State.Conversation.{ActiveConversationTurn}
use cloud_agent.State.Tokens.{CancellationTokens}
use cloud_agent.State.Agent.{
  AgentState, ActiveTurnHandle, AgentConversationEntry, entry_of, put, handle_of, active_turn,
  cancel_turn, as_cancelled, interrupted, interrupt_conversation,
}
use cloud_agent.State.Steps.{Reachable}
use cloud_agent.State.Invariant.{Reachable-IsWellFormed}

module _ (c : CancellationTokens) where
  open c use {Token, Store, new, cancel, is_cancelled}

  pub entry_of-put :
      (id : Text) (e : AgentConversationEntry c) (a : AgentState c)
      → a.poisoned ≡ false
      → entry_of c id (put c id e a) ≡ some e
  unfolding entry_of
  entry_of-put id e a sound =
      rw (sound) (ground (arith, lookup-insert id id e a.conversations, eq_refl id))

  pub entry_of_sound :
      (id : Text) (a : AgentState c) (e : AgentConversationEntry c)
      → entry_of c id a ≡ some e
      → (a.poisoned ≡ false) × (lookup id a.conversations ≡ some e)
  unfolding entry_of
  entry_of_sound id a e h = (ground (arith, h), ground (arith, h))

  -- What a handle says of an entry.
  handle_of-cases :
      (o : Option ActiveConversationTurn) (t : Option Token) (handle : ActiveTurnHandle c)
      → handle_of c o t ≡ some handle
      → (t ≡ some handle.cancellation_token)
        × (handle_of c (as_cancelled c o) t ≡ some (record handle { turn_state = cancelled }))
  handle_of-cases none none handle h = cc
  handle_of-cases none (some t) handle h = cc
  handle_of-cases (some o) none handle h = cc
  handle_of-cases (some o) (some t) handle h = (ground (arith, h), ground (arith, h))

  active_turn-entry :
      (id : Text) (a : AgentState c) (handle : ActiveTurnHandle c)
      → active_turn c id a ≡ some handle
      → (e : AgentConversationEntry c) × (entry_of c id a ≡ some e)
        × (handle_of c e.conversation.active_turn e.cancellation_token ≡ some handle)
  unfolding active_turn
  active_turn-entry id a handle h = elim (Option-cases (entry_of c id a)) [
    | inl none_there ↦ absurd (ground (arith, h, none_there))
    | inr (e, there) ↦ (e, there, ground (arith, h, there))
  ]

  active_turn-put :
      (id : Text) (e : AgentConversationEntry c) (a : AgentState c)
      → a.poisoned ≡ false
      → active_turn c id (put c id e a)
        ≡ handle_of c e.conversation.active_turn e.cancellation_token
  unfolding active_turn
  active_turn-put id e a sound = rw (entry_of-put id e a sound, active_turn)

  interrupt_entry :
      (id : Text) (a : AgentState c) (e : AgentConversationEntry c) (t : Option Token)
      → entry_of c id a ≡ some e
      → e.cancellation_token ≡ t
      → interrupt_conversation c id a ≡ interrupted c id a e t
  unfolding interrupt_conversation
  interrupt_entry id a e t there h =
      rw (there, interrupt_conversation) (ap (interrupted c id a e) h)

  -- Interrupting a conversation with an active turn succeeds, cancels the token of the turn's
  -- handle, and leaves the turn active and in the cancelled state.
  pub interrupt_conversation-active :
      (id : Text) (a : AgentState c) (handle : ActiveTurnHandle c)
      → active_turn c id a ≡ some handle
      → ((interrupt_conversation c id a).0 ≡ true)
        × (is_cancelled handle.cancellation_token (interrupt_conversation c id a).1.tokens ≡ true)
        × (active_turn c id (interrupt_conversation c id a).1
            ≡ some (record handle { turn_state = cancelled }))
  interrupt_conversation-active id a handle h =
      let (e, there, of_e) = active_turn-entry id a handle h in
      let t = handle.cancellation_token in
      let (token, after) =
        handle_of-cases e.conversation.active_turn e.cancellation_token handle of_e in
      let (sound, _) = entry_of_sound id a e there in
      subst
        (λ (r : Bool × AgentState c).
          (r.0 ≡ true)
          × (is_cancelled t r.1.tokens ≡ true)
          × (active_turn c id r.1 ≡ some (record handle { turn_state = cancelled })))
        (sym (interrupt_entry id a e (some t) there token))
        (
          refl,
          c.cancel_cancels t a.tokens,
          active_turn-put id (cancel_turn c e) (record a { tokens = cancel t a.tokens }) sound
              ∙ after,
        )

  no_token :
      (o : Option ActiveConversationTurn) (t : Option Token)
      → is_some t ≡ is_some o
      → handle_of c o t ≡ none
      → t ≡ none
  no_token o none e h = refl
  no_token none (some t) e h = cc
  no_token (some o) (some t) e h = cc

  -- After any sequence of calls on a new agent, interrupting a conversation without an active turn
  -- is refused and changes nothing.
  pub interrupt_conversation-idle :
      (id : Text) (a : AgentState c)
      → Reachable c a
      → active_turn c id a ≡ none
      → interrupt_conversation c id a ≡ (false, a)
  unfolding active_turn interrupt_conversation
  interrupt_conversation-idle id a r h = elim (Option-cases (entry_of c id a)) [
    | inl none_there ↦ rw (none_there, interrupt_conversation) refl
    | inr (e, there) ↦
        let he = Reachable-IsWellFormed c a r id e (entry_of_sound id a e there).1 in
        interrupt_entry id a e none there
          (no_token e.conversation.active_turn e.cancellation_token he.0 (ground (arith, h, there)))
  ]
