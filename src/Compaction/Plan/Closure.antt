-- ===== src/Compaction/Plan/Closure.antt =====
-- The calls and outputs that `adjust_tail_start_for_tool_invariants` of context/compaction/plan.rs
-- looks for.
use cloud_agent.Base.{
  ℕ, zero, suc, ◌-◌, ◌≤◌, ◌<◌, ◌≡◌, true, none, some, List, [], ◌∷◌, arith, drop, get_elem?, length,
  Bool-cases, Option-cases, inl, inr, All, any, is_some,
}
use cloud_agent.Base.Text.{Text}
use cloud_agent.Data.Response.{ResponseItem, system, user, assistant, tool}
use cloud_agent.Conversation.Markers.{is_some_and}
use cloud_agent.Compaction.Plan.{
  is_call_of, match_loop, find_matching_tool_call, early_call, missing_call,
}
use cloud_agent.Compaction.Plan.Search.{any-drop}

pub match_loop_sound :
    (messages : List ResponseItem) (id : Text) (n i : ℕ)
    → match_loop messages id n ≡ some i
    → (1 ≤ i) × (i ≤ n) × (is_some_and (get_elem? messages i) (is_call_of id) ≡ true)
unfolding match_loop
match_loop_sound messages id zero i h = cc
match_loop_sound messages id (suc n) i h =
    elim (Bool-cases (is_some_and (get_elem? messages (suc n)) (is_call_of id))) [
      | inl hit ↦ ground (arith, hit, h)
      | inr miss ↦ ground (arith, match_loop_sound messages id n i (rw miss at h))
    ]

match_loop_complete :
    (messages : List ResponseItem) (id : Text) (n i : ℕ)
    → 1 ≤ i
    → i ≤ n
    → is_some_and (get_elem? messages i) (is_call_of id) ≡ true
    → is_some (match_loop messages id n) ≡ true
unfolding match_loop
match_loop_complete messages id zero i p q h = absurd (omega arith)
match_loop_complete messages id (suc n) i p q h =
    elim (Bool-cases (is_some_and (get_elem? messages (suc n)) (is_call_of id))) [
      | inl hit ↦ rw hit
      | inr miss ↦ rw miss (match_loop_complete messages id n i p (ground (arith, miss, h)) h)
    ]

find_matching_tool_call_sound :
    (messages : List ResponseItem) (id : Text) (i : ℕ)
    → find_matching_tool_call messages id ≡ some i
    → (1 ≤ i) × (is_some_and (get_elem? messages i) (is_call_of id) ≡ true)
unfolding find_matching_tool_call
find_matching_tool_call_sound messages id i h =
    let (p, q, r) = match_loop_sound messages id (length messages - 1) i h in (p, r)

early_call_early :
    (messages : List ResponseItem) (keep_start : ℕ) (item : ResponseItem) (i : ℕ)
    → early_call messages keep_start item ≡ some i
    → (1 ≤ i) × (i < keep_start)
unfolding early_call
early_call_early messages keep_start (tool id name content structured) i h =
    elim (Option-cases (find_matching_tool_call messages id)) [
      | inl e ↦ ground (arith, e, h)
      | inr (j, e) ↦ ground (arith, e, h, find_matching_tool_call_sound messages id j e)
    ]
early_call_early messages keep_start (system content) i h = cc
early_call_early messages keep_start (user content) i h = cc
early_call_early messages keep_start (assistant content reasoning tool_calls) i h = cc

pub missing_call_early :
    (messages : List ResponseItem) (keep_start : ℕ) (items : List ResponseItem) (i : ℕ)
    → missing_call messages keep_start items ≡ some i
    → (1 ≤ i) × (i < keep_start)
unfolding missing_call
missing_call_early messages keep_start [] i h = cc
missing_call_early messages keep_start (item ∷ items) i h =
    elim (Option-cases (early_call messages keep_start item)) [
      | inl e ↦ missing_call_early messages keep_start items i (rw (e, missing_call) at h)
      | inr (j, e) ↦ early_call_early messages keep_start item i (ground (arith, e, h))
    ]

-- `i` is the index of a message after the first that makes the call.
abbrev CallsAt : List ResponseItem → Text → ℕ → Type 0
CallsAt messages id i =
    (1 ≤ i) × (i < length messages) × (is_some_and (get_elem? messages i) (is_call_of id) ≡ true)

-- If the message at some index after the first calls what the item answers, some message from
-- `start` on does.
abbrev pub IsClosed : List ResponseItem → ℕ → ResponseItem → Type 0
IsClosed messages start (tool id name content structured) =
    (i : ℕ) → CallsAt messages id i → any (is_call_of id) (drop start messages) ≡ true
IsClosed messages start item = Unit

early_call-IsClosed :
    (messages : List ResponseItem) (start : ℕ) (item : ResponseItem)
    → early_call messages start item ≡ none
    → IsClosed messages start item
unfolding early_call find_matching_tool_call
early_call-IsClosed messages start (tool id name content structured) h = λ i calls.
    elim (Option-cases (find_matching_tool_call messages id)) [
      | inl e ↦
          let found =
            match_loop_complete messages id (length messages - 1) i calls.0 (omega arith) calls.2 in
          absurd (ground (arith, e, found))
      | inr (j, e) ↦
          any-drop (is_call_of id) messages start j (ground (arith, e, h))
            (find_matching_tool_call_sound messages id j e).1
    ]
early_call-IsClosed messages start (system content) h = tt
early_call-IsClosed messages start (user content) h = tt
early_call-IsClosed messages start (assistant content reasoning tool_calls) h = tt

pub missing_call-IsClosed :
    (messages : List ResponseItem) (start : ℕ) (items : List ResponseItem)
    → missing_call messages start items ≡ none
    → All (IsClosed messages start) items
unfolding missing_call
missing_call-IsClosed messages start [] h = tt
missing_call-IsClosed messages start (item ∷ items) h =
    elim (Option-cases (early_call messages start item)) [
      | inl e ↦ (
        early_call-IsClosed messages start item e,
        missing_call-IsClosed messages start items (rw (e, missing_call) at h),
      )
      | inr (j, e) ↦ absurd (ground (arith, e, h))
    ]

-- The tail from a start stays with its calls.
abbrev pub IsClosedFrom : List ResponseItem → ℕ → Type 0
IsClosedFrom messages start = All (IsClosed messages start) (drop start messages)
