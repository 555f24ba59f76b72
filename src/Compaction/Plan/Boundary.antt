-- ===== src/Compaction/Plan/Boundary.antt =====
-- The boundary before the most recent user turns.
use cloud_agent.Base.{
  ℕ, zero, suc, ◌-◌, ◌≤◌, ◌<◌, ◌≡◌, true, Option, none, some, List, [], ◌∷◌, arith, drop, get_elem?,
  length, keep, ◌==◌, Bool-cases, inl, inr,
}
use cloud_agent.Data.Response.{ResponseItem}
use cloud_agent.Conversation.Markers.{is_some_and, counts_as_real_user_turn}
use cloud_agent.Compaction.Plan.{boundary_loop, find_recent_user_boundary}
use cloud_agent.Compaction.Plan.Search.{drop_step, drop_all}

abbrev pub real_users : List ResponseItem → ℕ
real_users items = length (keep counts_as_real_user_turn items)

-- What a search says of the boundary: `wanted` real user turns from it on, the first of them at it.
abbrev pub IsBoundary : List ResponseItem → ℕ → Option ℕ → Type 0
IsBoundary messages wanted none = real_users (drop 1 messages) < wanted
IsBoundary messages wanted (some i) =
    (1 ≤ i)
    × (i < length messages)
    × (is_some_and (get_elem? messages i) counts_as_real_user_turn ≡ true)
    × (real_users (drop i messages) ≡ wanted)

boundary_loop-IsBoundary :
    (messages : List ResponseItem) (wanted i seen : ℕ)
    → i < length messages
    → seen ≡ real_users (drop (suc i) messages)
    → seen < wanted
    → IsBoundary messages wanted (boundary_loop messages wanted i seen)
unfolding boundary_loop
boundary_loop-IsBoundary messages wanted zero seen lt e more = omega (arith, e)
boundary_loop-IsBoundary messages wanted (suc i) seen lt e more =
    elim (Bool-cases (is_some_and (get_elem? messages (suc i)) counts_as_real_user_turn)) [
      | inl real ↦
          let step = drop_step counts_as_real_user_turn messages (suc i) lt in
          elim (Bool-cases (suc seen == wanted)) [
            | inl hit ↦ rw (real, hit) (omega arith, lt, real, ground (arith, step, real, hit))
            | inr miss ↦
                rw (real, miss)
                  (boundary_loop-IsBoundary messages wanted i (suc seen) (omega arith)
                    (ground (arith, step, real)) (ground (arith, miss)))
          ]
      | inr other ↦
          let step = drop_step counts_as_real_user_turn messages (suc i) lt in
          rw other (
            boundary_loop-IsBoundary messages wanted i seen (omega arith)
              (ground (arith, step, other)) more)
    ]

pub pred_length : (m : ResponseItem) (ms : List ResponseItem) → length (m ∷ ms) - 1 ≡ length ms
pred_length m ms = omega arith

-- For a nonempty history and at least one turn asked for, the search returns the index of a real user turn, after which (it included) there are exactly as
-- many real user turns as asked for; it returns nothing exactly when there are fewer than that
-- after the first message.
pub find_recent_user_boundary-IsBoundary :
    (messages : List ResponseItem) (wanted : ℕ)
    → 0 < length messages
    → 0 < wanted
    → IsBoundary messages wanted (find_recent_user_boundary messages wanted)
unfolding find_recent_user_boundary
find_recent_user_boundary-IsBoundary [] wanted nonempty some_wanted = absurd (omega arith)
find_recent_user_boundary-IsBoundary (m ∷ ms) wanted nonempty some_wanted = rw (pred_length m ms) (
    boundary_loop-IsBoundary (m ∷ ms) wanted (length ms) 0 (omega arith) (rw (drop_all ms))
      some_wanted)
