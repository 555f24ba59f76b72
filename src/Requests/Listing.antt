-- ===== src/Requests/Listing.antt =====
-- `pending_for_conversation` of crates/agent-app-server/src/server_request/coordinator.rs: the
-- requests of a conversation that wait, in the order of their ids.
use Prim.Native.Nat.{compare, Ordering}
use cloud_agent.Base.{Bool, true, false, List, [], ◌∷◌, if◌then◌else◌}
use cloud_agent.Base.Text.{Text, text_eq}
use cloud_agent.Data.Tool.{ℤ, pos, negsuc}
use cloud_agent.Data.Event.{ServerRequest}
use cloud_agent.State.RequestIds.{RequestId, string, integer}
use cloud_agent.Requests.{PendingServerRequest, ServerRequestCoordinator, is_of_conversation}

-- `cmp` on `String`
unfoldable pub text_cmp : Text → Text → Ordering
text_cmp [] [] = Ordering.eq
text_cmp [] (d ∷ t) = Ordering.lt
text_cmp (c ∷ s) [] = Ordering.gt
text_cmp (c ∷ s) (d ∷ t) =
    let rest = text_cmp s t in
    elim (compare c d) [
      | Ordering.lt ↦ Ordering.lt
      | Ordering.eq ↦ rest
      | Ordering.gt ↦ Ordering.gt
    ]

-- `cmp` on `i64`
unfoldable pub int_cmp : ℤ → ℤ → Ordering
int_cmp (pos m) (pos n) = compare m n
int_cmp (negsuc m) (negsuc n) = compare n m
int_cmp (pos m) (negsuc n) = Ordering.gt
int_cmp (negsuc m) (pos n) = Ordering.lt

unfoldable pub request_id_order : RequestId → RequestId → Ordering
unfolding text_cmp int_cmp
request_id_order (integer a) (integer b) = int_cmp a b
request_id_order (string a) (string b) = text_cmp a b
request_id_order (integer a) (string b) = Ordering.lt
request_id_order (string a) (integer b) = Ordering.gt

abbrev is_gt : Ordering → Bool
is_gt Ordering.gt = true
is_gt _ = false

abbrev pub Listed : Type 0
Listed = RequestId × ServerRequest

-- `sort_by`, which keeps the order of equal elements.
unfoldable pub insert_listed : Listed → List Listed → List Listed
unfolding request_id_order
insert_listed r [] = r ∷ []
insert_listed r (s ∷ rest) =
    let further = insert_listed r rest in
    if is_gt (request_id_order (r.0) (s.0)) then s ∷ further else r ∷ s ∷ rest

unfoldable pub sort_listed : List Listed → List Listed
unfolding insert_listed
sort_listed [] = []
sort_listed (r ∷ rest) = insert_listed r (sort_listed rest)

module _ (Sender : Type 0) where
  unfoldable pub requests_of : Text → List (RequestId × PendingServerRequest Sender) → List Listed
  unfolding text_eq
  requests_of conversation_id [] = []
  requests_of conversation_id ((id, p) ∷ rest) =
      let later = requests_of conversation_id rest in
      if is_of_conversation Sender conversation_id p then (id, p.request) ∷ later else later

  unfoldable pub pending_for_conversation : Text → ServerRequestCoordinator Sender → List Listed
  unfolding sort_listed requests_of
  pending_for_conversation conversation_id c = sort_listed (requests_of conversation_id c.pending)
