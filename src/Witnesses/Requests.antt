-- ===== src/Witnesses/Requests.antt =====
-- The theorems on pending requests, applied.
use cloud_agent.Base.{ℕ, ◌≡◌, refl, none, some, List, [], ◌∷◌, ◌++◌}
use cloud_agent.Base.Text.{codes, text_eq}
use cloud_agent.Data.Tool.{pos}
use cloud_agent.Data.Event.{command_approval, ServerRequestDecision, accept, decline}
use cloud_agent.State.RequestIds.{id_eq, int_eq, string, integer, request_id_key}
use cloud_agent.Requests.{
  PendingServerRequest, ServerRequestCoordinator, insert_pending, resolve, is_of_turn, drain_turn,
}
use cloud_agent.Requests.Listing.{Listed, pending_for_conversation}
use cloud_agent.Requests.Drains.{returned, replies, unwanted, drain_turn-exact}
use cloud_agent.Requests.Lookups.{IsUnique}
use cloud_agent.Base.Maps.{lookup}
use cloud_agent.Requests.Once.{resolve_once}

-- Senders are numbered.
abbrev asked : PendingServerRequest ℕ
asked = record {
  conversation_id = codes "a";
  turn_id = codes "t1";
  request = command_approval (record {
    turn_id = codes "t1";
    tool_call_id = codes "c1";
    tool_name = codes "exec";
    reason = codes "r";
    command_preview = codes "ls";
  });
  reply_tx = 7;
}

abbrev accepted : ServerRequestDecision
accepted = record { decision = accept; reason = none }

abbrev declined : ServerRequestDecision
declined = record { decision = decline; reason = none }

abbrev waiting : ServerRequestCoordinator ℕ
waiting = record { pending = (integer (pos 1), asked) ∷ []; request_counter = pos 2; sent = [] }

resolve_once_example :
    let (first, after) =
      resolve ℕ (integer (pos 2)) accepted (insert_pending ℕ (integer (pos 2)) asked waiting) in
    (first
      ≡ some (record {
        conversation_id = codes "a";
        turn_id = codes "t1";
        request = asked.request;
        decision = accepted;
      }))
    × (after.sent ≡ [] ++ (7, accepted) ∷ [])
    × (resolve ℕ (integer (pos 2)) declined after ≡ (none, after))
resolve_once_example = resolve_once ℕ (integer (pos 2)) asked accepted declined waiting

-- Requests of two turns.
abbrev of_two_turns : ServerRequestCoordinator ℕ
of_two_turns = record {
  pending =
      (integer (pos 1), asked)
      ∷ (integer (pos 2), record asked { turn_id = codes "t2"; reply_tx = 8 })
      ∷ (string (codes "x"), record asked { reply_tx = 9 })
      ∷ [];
  request_counter = pos 3;
  sent = [];
}

two_turns-IsUnique : IsUnique ℕ of_two_turns.pending
unfolding lookup id_eq int_eq
two_turns-IsUnique = (refl, (refl, (refl, tt)))

drain_turn-exact_example : drain_turn ℕ (codes "t1") declined of_two_turns ≡ (
  returned ℕ (is_of_turn ℕ (codes "t1")) declined of_two_turns.pending,
  record of_two_turns {
    pending = unwanted ℕ (is_of_turn ℕ (codes "t1")) declined of_two_turns.pending;
    sent = [] ++ replies ℕ (is_of_turn ℕ (codes "t1")) declined of_two_turns.pending;
  },
)
drain_turn-exact_example = drain_turn-exact ℕ (codes "t1") declined of_two_turns two_turns-IsUnique

sent_to_two :
    replies ℕ (is_of_turn ℕ (codes "t1")) declined of_two_turns.pending
    ≡ (7, declined) ∷ (9, declined) ∷ []
unfolding text_eq
sent_to_two = refl

-- The requests of the test of the source, in the order in which they were inserted.
abbrev unsorted : ServerRequestCoordinator ℕ
unsorted = record {
  pending =
      (integer (pos 10), asked)
      ∷ (integer (pos 2), asked)
      ∷ (string (codes "b"), asked)
      ∷ (string (codes "a"), asked)
      ∷ [];
  request_counter = pos 1;
  sent = [];
}

abbrev sorted : List Listed
sorted =
    (integer (pos 2), asked.request)
    ∷ (integer (pos 10), asked.request)
    ∷ (string (codes "a"), asked.request)
    ∷ (string (codes "b"), asked.request)
    ∷ []

listed_in_order : pending_for_conversation ℕ (codes "a") unsorted ≡ sorted
unfolding pending_for_conversation
listed_in_order = refl
