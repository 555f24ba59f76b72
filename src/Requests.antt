-- ===== src/Requests.antt =====
-- crates/agent-app-server/src/server_request/coordinator.rs: the requests that wait for a decision
-- of the user. `Sender` is `oneshot::Sender<ServerRequestDecision>`; `sent` lists what has been
-- sent, in order, for the result of a send is not looked at.
pub mod Lookups
pub mod Drains
pub mod Once
pub mod Listing
use cloud_agent.Base.{
  ℕ, zero, suc, Bool, true, false, Option, none, some, List, [], ◌∷◌, ◌++◌, ◌==◌, ltb,
  if◌then◌else◌,
}
use cloud_agent.Base.Text.{Text, text_eq}
use cloud_agent.Base.Maps.{lookup, insert, remove}
use cloud_agent.Data.Tool.{ℤ, pos, negsuc}
use cloud_agent.Data.Event.{ServerRequest, ServerRequestDecision}
use cloud_agent.State.RequestIds.{RequestId, string, integer, request_id_key}

module _ (Sender : Type 0) where
  pub record PendingServerRequest : Type 0 where
    pub conversation_id : Text
    pub turn_id : Text
    pub request : ServerRequest
    pub reply_tx : Sender

  pub record ResolvedServerRequest : Type 0 where
    pub conversation_id : Text
    pub turn_id : Text
    pub request : ServerRequest
    pub decision : ServerRequestDecision

  pub record ServerRequestCoordinator : Type 0 where
    pub pending : List (RequestId × PendingServerRequest)
    pub request_counter : ℤ
    pub sent : List (Sender × ServerRequestDecision)

  abbrev pub new_coordinator : ServerRequestCoordinator
  new_coordinator = record { pending = []; request_counter = pos 1; sent = [] }

  -- `fetch_add(1)` on an `AtomicI64`.
  unfoldable pub add_one : ℤ → ℤ
  add_one (pos n) = if n == 9223372036854775807 then negsuc 9223372036854775807 else pos (suc n)
  add_one (negsuc zero) = pos 0
  add_one (negsuc (suc n)) = negsuc n

  unfoldable next_request_id : ServerRequestCoordinator → RequestId × ServerRequestCoordinator
  next_request_id c =
      (integer c.request_counter, record c { request_counter = add_one c.request_counter })

  pub insert_pending :
      RequestId → PendingServerRequest → ServerRequestCoordinator → ServerRequestCoordinator
  insert_pending request_id p c = record c { pending = insert request_id p c.pending }

  abbrev pub resolved :
      RequestId
      → ServerRequestDecision
      → Option PendingServerRequest
      → ServerRequestCoordinator
      → Option ResolvedServerRequest × ServerRequestCoordinator
  resolved request_id d none c = (none, c)
  resolved request_id d (some p) c = (
    some (record {
      conversation_id = p.conversation_id;
      turn_id = p.turn_id;
      request = p.request;
      decision = d;
    }),
    record c { pending = remove request_id c.pending; sent = c.sent ++ (p.reply_tx, d) ∷ [] },
  )

  pub resolve :
      RequestId
      → ServerRequestDecision
      → ServerRequestCoordinator
      → Option ResolvedServerRequest × ServerRequestCoordinator
  resolve request_id d c = resolved request_id d (lookup request_id c.pending) c

  abbrev pub Drained : Type 0
  Drained = List (RequestId × Text × ServerRequest × ServerRequestDecision)

  abbrev pub drained :
      RequestId → ServerRequestDecision → Option ResolvedServerRequest → Drained → Drained
  drained request_id d none rest = rest
  drained request_id d (some r) rest = (request_id, r.turn_id, r.request, d) ∷ rest

  pub ids_where :
      (PendingServerRequest → Bool) → List (RequestId × PendingServerRequest) → List RequestId
  ids_where wanted [] = []
  ids_where wanted ((id, p) ∷ rest) =
      let ids = ids_where wanted rest in if wanted p then id ∷ ids else ids

  -- The second loop of a drain: what it sends and removes is what `resolve` does.
  pub drain_ids :
      List RequestId
      → ServerRequestDecision
      → ServerRequestCoordinator
      → Drained × ServerRequestCoordinator
  drain_ids [] d c = ([], c)
  drain_ids (id ∷ ids) d c =
      let (r, c') = resolve id d c in
      let (rest, c'') = drain_ids ids d c' in (drained id d r rest, c'')

  abbrev pub is_of_turn : Text → PendingServerRequest → Bool
  is_of_turn turn_id p = text_eq p.turn_id turn_id

  abbrev pub is_of_conversation : Text → PendingServerRequest → Bool
  is_of_conversation conversation_id p = text_eq p.conversation_id conversation_id

  pub drain_turn :
      Text → ServerRequestDecision → ServerRequestCoordinator → Drained × ServerRequestCoordinator
  drain_turn turn_id d c = drain_ids (ids_where (is_of_turn turn_id) c.pending) d c

  pub drain_conversation :
      Text → ServerRequestDecision → ServerRequestCoordinator → Drained × ServerRequestCoordinator
  drain_conversation conversation_id d c =
      drain_ids (ids_where (is_of_conversation conversation_id) c.pending) d c
