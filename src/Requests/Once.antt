-- ===== src/Requests/Once.antt =====
-- Two decisions on one request of server_request/coordinator.rs.
use cloud_agent.Base.{◌≡◌, ap, none, some, [], ◌∷◌, ◌++◌, arith}
use cloud_agent.Base.Maps.{lookup, lookup-insert, eq_refl}
use cloud_agent.Data.Event.{ServerRequestDecision}
use cloud_agent.State.RequestIds.{RequestId, request_id_key}
use cloud_agent.Requests.{
  PendingServerRequest, ServerRequestCoordinator, resolve, resolved, insert_pending,
}
use cloud_agent.Requests.Lookups.{resolve-pending}

module _ (Sender : Type 0) where
  resolve_unknown :
      (id : RequestId) (d : ServerRequestDecision) (c : ServerRequestCoordinator Sender)
      → lookup id c.pending ≡ none
      → resolve Sender id d c ≡ (none, c)
  unfolding resolve
  resolve_unknown id d c h = ap (λ o. resolved Sender id d o c) h

  -- A request that was inserted is resolved once: the first decision is sent to its sender and to
  -- no other, its conversation, turn and request come back with that decision, and a second
  -- decision for the same id is refused, sends nothing and changes nothing.
  pub resolve_once :
      (id : RequestId) (p : PendingServerRequest Sender) (d d' : ServerRequestDecision)
      (c : ServerRequestCoordinator Sender)
      → let (first, after) = resolve Sender id d (insert_pending Sender id p c) in
        (first
          ≡ some (record {
            conversation_id = p.conversation_id;
            turn_id = p.turn_id;
            request = p.request;
            decision = d;
          }))
        × (after.sent ≡ c.sent ++ (p.reply_tx, d) ∷ [])
        × (resolve Sender id d' after ≡ (none, after))
  unfolding insert_pending resolve
  resolve_once id p d d' c =
      let inserted = insert_pending Sender id p c in
      let there : lookup id inserted.pending ≡ some p =
        ground (arith, lookup-insert id id p c.pending, eq_refl id) in
      let gone : lookup id (resolve Sender id d inserted).1.pending ≡ none =
        ground (arith, resolve-pending Sender id id d inserted, eq_refl id) in
      (
        ap (λ o. (resolved Sender id d o inserted).0) there,
        ap (λ o. (resolved Sender id d o inserted).1.sent) there,
        resolve_unknown id d' (resolve Sender id d inserted).1 gone,
      )
