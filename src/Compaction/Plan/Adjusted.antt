-- ===== src/Compaction/Plan/Adjusted.antt =====
-- `adjust_tail_start_for_tool_invariants` of context/compaction/plan.rs: its rounds and its result.
use cloud_agent.Base.{
  ℕ, zero, suc, ◌-◌, ◌≤◌, ◌<◌, ◌≡◌, true, none, some, List, [], ◌∷◌, arith, drop, get_elem?, length,
  Bool-cases, Option-cases, inl, inr, min, All, le→leb, lt→leb, length-drop, ◌+◌,
}
use cloud_agent.Base.Text.{Text}
use cloud_agent.Data.Response.{ResponseItem, system, user, assistant, tool}
use cloud_agent.Conversation.Markers.{is_some_and}
use cloud_agent.Compaction.Plan.{
  is_call_of, match_loop, find_matching_tool_call, early_call, missing_call, adjust_loop,
  adjust_tail_start_for_tool_invariants,
}
use cloud_agent.Compaction.Plan.Search.{any_index, get_elem?-drop}
use cloud_agent.Compaction.Plan.Closure.{
  match_loop_sound, missing_call_early, missing_call-IsClosed, IsClosed, IsClosedFrom,
}

-- The greatest start not above `keep_start` whose tail stays with its calls.
pub record IsAdjusted (messages : List ResponseItem) (keep_start start : ℕ) : Type 0 where
  pub below : start ≤ keep_start
  pub from_one : min 1 keep_start ≤ start
  pub closed : IsClosedFrom messages start
  pub greatest : (s : ℕ) → s ≤ keep_start → IsClosedFrom messages s → s ≤ start

match_loop_last :
    (messages : List ResponseItem) (id : Text) (n i j : ℕ)
    → match_loop messages id n ≡ some i
    → j ≤ n
    → is_some_and (get_elem? messages j) (is_call_of id) ≡ true
    → j ≤ i
unfolding match_loop
match_loop_last messages id zero i j h q c = cc
match_loop_last messages id (suc n) i j h q c =
    elim (Bool-cases (is_some_and (get_elem? messages (suc n)) (is_call_of id))) [
      | inl hit ↦ ground (arith, hit, h)
      | inr miss ↦ match_loop_last messages id n i j (rw miss at h) (ground (arith, miss, c, q)) c
    ]

-- A closed start lies at or before the call that is missing from a tail within its own.
early_call_above :
    (messages : List ResponseItem) (keep_start s i : ℕ) (item : ResponseItem)
    → early_call messages keep_start item ≡ some i
    → IsClosed messages s item
    → s ≤ i
unfolding early_call
early_call_above messages keep_start zero i (tool id name content structured) h closed = omega arith
early_call_above messages keep_start (suc s) i (tool id name content structured) h closed =
    elim (Option-cases (find_matching_tool_call messages id)) [
      | inl e ↦ absurd (ground (arith, e, h))
      | inr (j, e) ↦
          let same : j ≡ i = ground (arith, e, h) in
          let (p, q, call) =
            match_loop_sound messages id (length messages - 1) j
              (unfold find_matching_tool_call in e) in
          let (k, lt, c) =
            any_index (is_call_of id) (drop (suc s) messages) (closed j (p, omega arith, call)) in
          let inside : suc s + k ≤ length messages - 1 =
            omega (arith, lt, length-drop (suc s) messages) in
          let last =
            match_loop_last messages id (length messages - 1) j (suc s + k)
              (unfold find_matching_tool_call in e) inside
              (rw (get_elem?-drop messages (suc s) k) at c) in
          omega (arith, last, same)
    ]
early_call_above messages keep_start s i (system content) h closed = cc
early_call_above messages keep_start s i (user content) h closed = cc
early_call_above messages keep_start s i (assistant content reasoning tool_calls) h closed = cc

missing_call_above :
    (messages : List ResponseItem) (keep_start s i : ℕ) (items : List ResponseItem)
    → missing_call messages keep_start items ≡ some i
    → All (IsClosed messages s) items
    → s ≤ i
unfolding missing_call
missing_call_above messages keep_start s i [] h closed = cc
missing_call_above messages keep_start s i (item ∷ items) h closed =
    elim (Option-cases (early_call messages keep_start item)) [
      | inl e ↦
          missing_call_above messages keep_start s i items (rw (e, missing_call) at h) closed.1
      | inr (j, e) ↦ early_call_above messages keep_start s i item (ground (arith, e, h)) closed.0
    ]

All-drop {ℓ κ} :
    {A : Type ℓ} (P : A → Type κ) (xs : List A) (m n : ℕ)
    → m ≤ n
    → All P (drop m xs)
    → All P (drop n xs)
All-drop P xs zero zero h a = a
All-drop P [] zero (suc n) h a = tt
All-drop P (x ∷ xs) zero (suc n) h a = All-drop P xs zero n (omega arith) a.1
All-drop P xs (suc m) zero h a = absurd (omega arith)
All-drop P [] (suc m) (suc n) h a = tt
All-drop P (x ∷ xs) (suc m) (suc n) h a = All-drop P xs m n (omega arith) a

adjust_loop-IsAdjusted :
    (rounds : ℕ) (messages : List ResponseItem) (keep_start : ℕ)
    → keep_start < rounds
    → keep_start ≤ length messages
    → (start : ℕ) × (adjust_loop rounds messages keep_start ≡ some start)
      × IsAdjusted messages keep_start start
unfolding adjust_loop
adjust_loop-IsAdjusted zero messages keep_start h l = absurd (omega arith)
adjust_loop-IsAdjusted (suc rounds) messages keep_start h l =
    let tail = drop keep_start messages in
    elim (Option-cases (missing_call messages keep_start tail)) [
      | inl e ↦ (
        keep_start,
        rw (adjust_loop, le→leb keep_start (length messages) l, e),
        record {
          below = omega arith;
          from_one = omega arith;
          closed = missing_call-IsClosed messages keep_start tail e;
          greatest = λ s p c. p;
        },
      )
      | inr (i, e) ↦
          let early = missing_call_early messages keep_start tail i e in
          let (start, runs, adjusted) =
            adjust_loop-IsAdjusted rounds messages i (omega arith) (omega arith) in
          (
            start,
            rw (adjust_loop, le→leb keep_start (length messages) l, e) runs,
            record {
              below = omega (arith, early, adjusted.below);
              from_one = omega (arith, early, adjusted.from_one);
              closed = adjusted.closed;
              greatest = λ s p c.
                  adjusted.greatest s
                    (missing_call_above messages keep_start s i tail e
                      (All-drop (IsClosed messages s) messages s keep_start p c))
                    c;
            },
          )
    ]

-- For a start within the history the adjustment neither panics nor runs on: it yields the greatest
-- start, not above the given one, such that each tool output in the tail whose call stands after
-- the first message has one in the tail; and not 0 if the given start is not.
pub adjust_tail_start-IsAdjusted :
    (messages : List ResponseItem) (keep_start : ℕ)
    → keep_start ≤ length messages
    → (start : ℕ) × (adjust_tail_start_for_tool_invariants messages keep_start ≡ some start)
      × IsAdjusted messages keep_start start
unfolding adjust_tail_start_for_tool_invariants
adjust_tail_start-IsAdjusted messages keep_start l =
    adjust_loop-IsAdjusted (suc keep_start) messages keep_start (omega arith) l

-- Behind the end of the history it panics.
pub adjust_tail_start_panics :
    (messages : List ResponseItem) (keep_start : ℕ)
    → length messages < keep_start
    → adjust_tail_start_for_tool_invariants messages keep_start ≡ none
unfolding adjust_tail_start_for_tool_invariants adjust_loop
adjust_tail_start_panics messages keep_start l =
    rw (adjust_tail_start_for_tool_invariants, adjust_loop, lt→leb keep_start (length messages) l)
