-- ===== src/Requests/Drains.antt =====
-- What a drain of server_request/coordinator.rs sends, returns and leaves.
use mathlib.Core.List.{append_assoc, append-nil}
use cloud_agent.Base.{
  ◌≡◌, refl, ap, sym, ◌∙◌, Bool, false, Option, none, some, List, [], ◌∷◌, ◌++◌, arith, Bool-cases,
  inl, inr, if◌then◌else◌,
}
use cloud_agent.Base.Text.{Text}
use cloud_agent.Base.Maps.{lookup, remove, eq_refl}
use cloud_agent.Data.Tool.{ℤ}
use cloud_agent.Data.Event.{ServerRequestDecision}
use cloud_agent.State.RequestIds.{RequestId, id_eq, id_eq_iff, request_id_key}
use cloud_agent.Requests.{
  PendingServerRequest, ServerRequestCoordinator, Drained, ResolvedServerRequest, resolve, resolved,
  drained, ids_where, drain_ids, drain_turn, drain_conversation, is_of_turn, is_of_conversation,
}
use cloud_agent.Requests.Lookups.{IsUnique}

module _ (Sender : Type 0) where
  abbrev Entries : Type 0
  Entries = List (RequestId × PendingServerRequest Sender)

  module _ (wanted : PendingServerRequest Sender → Bool) (d : ServerRequestDecision) where
    -- The wanted entries with the decision, as they are returned.
    abbrev pub returned : Entries → Drained Sender
    returned [] = []
    returned ((id, p) ∷ m) =
        let rest = returned m in if wanted p then (id, p.turn_id, p.request, d) ∷ rest else rest

    -- The decision for the sender of each wanted entry.
    abbrev pub replies : Entries → List (Sender × ServerRequestDecision)
    replies [] = []
    replies ((id, p) ∷ m) =
        let rest = replies m in if wanted p then (p.reply_tx, d) ∷ rest else rest

    abbrev pub unwanted : Entries → Entries
    unwanted [] = []
    unwanted ((id, p) ∷ m) = let rest = unwanted m in if wanted p then rest else (id, p) ∷ rest

    -- No id of the second list stands in the first one.
    abbrev AreApart : Entries → Entries → Type 0
    AreApart front [] = Unit
    AreApart front ((id, p) ∷ m) = (lookup id front ≡ none) × AreApart front m

    lookup-behind :
        (id : RequestId) (front m : Entries)
        → lookup id front ≡ none
        → lookup id (front ++ m) ≡ lookup id m
    unfolding lookup
    lookup-behind id [] m h = refl
    lookup-behind id ((j, q) ∷ front) m h = elim (Bool-cases (id_eq j id)) [
      | inl e ↦ absurd (ground (arith, e, h))
      | inr e ↦ rw e (lookup-behind id front m (rw e at h))
    ]

    remove-behind :
        (id : RequestId) (front m : Entries)
        → lookup id front ≡ none
        → remove id (front ++ m) ≡ front ++ remove id m
    unfolding lookup remove
    remove-behind id [] m h = refl
    remove-behind id ((j, q) ∷ front) m h = elim (Bool-cases (id_eq j id)) [
      | inl e ↦ absurd (ground (arith, e, h))
      | inr e ↦ rw e (ap (◌∷◌ (j, q)) (remove-behind id front m (rw e at h)))
    ]

    remove-absent : (id : RequestId) (m : Entries) → lookup id m ≡ none → remove id m ≡ m
    unfolding lookup remove
    remove-absent id [] h = refl
    remove-absent id ((j, q) ∷ m) h = elim (Bool-cases (id_eq j id)) [
      | inl e ↦ absurd (ground (arith, e, h))
      | inr e ↦ rw e (ap (◌∷◌ (j, q)) (remove-absent id m (rw e at h)))
    ]

    id_eq_sym : (i j : RequestId) → id_eq i j ≡ false → id_eq j i ≡ false
    id_eq_sym i j h = ground (arith, h, id_eq_iff i j, id_eq_iff j i)

    AreApart-further :
        (id : RequestId) (p : PendingServerRequest Sender) (front m : Entries)
        → lookup id m ≡ none
        → AreApart front m
        → AreApart (front ++ (id, p) ∷ []) m
    unfolding lookup
    AreApart-further id p front [] h a = tt
    AreApart-further id p front ((j, q) ∷ m) h a = elim (Bool-cases (id_eq j id)) [
      | inl e ↦ absurd (ground (arith, e, h))
      | inr e ↦ (
        lookup-behind j front ((id, p) ∷ []) a.0 ∙ (rw (id_eq_sym j id e) refl),
        AreApart-further id p front m (rw e at h) a.1,
      )
    ]

    abbrev state :
        Entries → ℤ → List (Sender × ServerRequestDecision) → ServerRequestCoordinator Sender
    state pending counter sent = record {
      pending = pending;
      request_counter = counter;
      sent = sent;
    }

    resolve-behind :
        (id : RequestId) (p : PendingServerRequest Sender) (front m : Entries) (n : ℤ)
        (sent : List (Sender × ServerRequestDecision))
        → lookup id front ≡ none
        → lookup id m ≡ none
        → resolve Sender id d (state (front ++ (id, p) ∷ m) n sent) ≡ (
          some (record {
            conversation_id = p.conversation_id;
            turn_id = p.turn_id;
            request = p.request;
            decision = d;
          }),
          state (front ++ m) n (sent ++ (p.reply_tx, d) ∷ []),
        )
    unfolding resolve lookup remove
    resolve-behind id p front m n sent h k =
        let whole = front ++ (id, p) ∷ m in
        let answer : Option (ResolvedServerRequest Sender) = some (record {
          conversation_id = p.conversation_id;
          turn_id = p.turn_id;
          request = p.request;
          decision = d;
        }) in
        let found : lookup id whole ≡ some p =
          lookup-behind id front ((id, p) ∷ m) h ∙ (rw (eq_refl id) refl) in
        let gone : remove id whole ≡ front ++ m =
          remove-behind id front ((id, p) ∷ m) h
          ∙ ap (front ++◌) (rw (eq_refl id) (remove-absent id m k)) in
        ap (λ o. resolved Sender id d o (state whole n sent)) found
        ∙ ap (λ q. (answer, state q n (sent ++ (p.reply_tx, d) ∷ []))) gone

    drain_from :
        (front m : Entries) (n : ℤ) (sent : List (Sender × ServerRequestDecision))
        → IsUnique Sender m
        → AreApart front m
        → drain_ids Sender (ids_where Sender wanted m) d (state (front ++ m) n sent)
          ≡ (returned m, state (front ++ unwanted m) n (sent ++ replies m))
    unfolding drain_ids ids_where
    drain_from front [] n sent u a = ap (λ s. ([], state (front ++ []) n s)) (sym (append-nil sent))
    drain_from front ((id, p) ∷ m) n sent u a = elim (Bool-cases (wanted p)) [
      | inl is ↦
          let next = state (front ++ m) n (sent ++ (p.reply_tx, d) ∷ []) in
          rw is (
            ap
              (λ r.
                let last = drain_ids Sender (ids_where Sender wanted m) d r.1 in
                (drained Sender id d r.0 last.0, last.1))
              (resolve-behind id p front m n sent a.0 u.0)
            ∙ ap (λ x. ((id, p.turn_id, p.request, d) ∷ x.0, x.1))
                (drain_from front m n next.sent u.1 a.1)
            ∙ ap
                (λ s. ((id, p.turn_id, p.request, d) ∷ returned m, state (front ++ unwanted m) n s))
                (append_assoc sent ((p.reply_tx, d) ∷ []) (replies m)))
      | inr isnt ↦ rw isnt (
          ap (λ q. drain_ids Sender (ids_where Sender wanted m) d (state q n sent))
            (sym (append_assoc front ((id, p) ∷ []) m))
          ∙ drain_from (front ++ (id, p) ∷ []) m n sent u.1 (AreApart-further id p front m u.0 a.1)
          ∙ ap (λ q. (returned m, state q n (sent ++ replies m)))
              (append_assoc front ((id, p) ∷ []) (unwanted m)))
    ]

    AreApart-nil : (m : Entries) → AreApart [] m
    unfolding lookup
    AreApart-nil [] = tt
    AreApart-nil ((id, p) ∷ m) = (refl, AreApart-nil m)

    drain_all :
        (c : ServerRequestCoordinator Sender)
        → IsUnique Sender c.pending
        → drain_ids Sender (ids_where Sender wanted c.pending) d c ≡ (
          returned c.pending,
          record c { pending = unwanted c.pending; sent = c.sent ++ replies c.pending },
        )
    drain_all c u = drain_from [] c.pending c.request_counter c.sent u (AreApart-nil c.pending)

  -- A drain of a turn, where no id is pending twice: it returns the pending requests of that turn,
  -- in the order of the map, each with the decision; sends the decision to the sender of each of
  -- them, once and to no other; and leaves all other requests pending as they were.
  pub drain_turn-exact :
      (turn_id : Text) (d : ServerRequestDecision) (c : ServerRequestCoordinator Sender)
      → IsUnique Sender c.pending
      → let wanted = is_of_turn Sender turn_id in
        drain_turn Sender turn_id d c ≡ (
          returned wanted d c.pending,
          record c {
            pending = unwanted wanted d c.pending;
            sent = c.sent ++ replies wanted d c.pending;
          },
        )
  unfolding drain_turn
  drain_turn-exact turn_id d c u = drain_all (is_of_turn Sender turn_id) d c u

  -- A drain of a conversation, where no id is pending twice: as for a turn, with the requests of
  -- that conversation.
  pub drain_conversation-exact :
      (conversation_id : Text) (d : ServerRequestDecision) (c : ServerRequestCoordinator Sender)
      → IsUnique Sender c.pending
      → let wanted = is_of_conversation Sender conversation_id in
        drain_conversation Sender conversation_id d c ≡ (
          returned wanted d c.pending,
          record c {
            pending = unwanted wanted d c.pending;
            sent = c.sent ++ replies wanted d c.pending;
          },
        )
  unfolding drain_conversation
  drain_conversation-exact conversation_id d c u =
      drain_all (is_of_conversation Sender conversation_id) d c u
