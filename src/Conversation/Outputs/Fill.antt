-- ===== src/Conversation/Outputs/Fill.antt =====
-- An independent description of `ensure_tool_outputs_present`: each item is followed at once by
-- an output for each of its unanswered calls.
use cloud_agent.Base.{
  ℕ, suc, ◌≡◌, refl, none, some, List, [], ◌∷◌, ◌++◌, arith, length, if◌then◌else◌, Bool-cases, inl,
  inr, length-append,
}
use mathlib.Core.List.{append_assoc}
use cloud_agent.Data.Tool.{ToolCall}
use cloud_agent.Data.Response.{ResponseItem, system, user, assistant, tool}
use cloud_agent.Conversation.Outputs.{
  has_output, aborted_output, missing_calls, missing_at, missing_outputs, insert_at, insert_outputs,
  and_then, ensure_tool_outputs_present,
}

unfoldable pub answers : List ResponseItem → List ToolCall → List ResponseItem
answers items [] = []
answers items (call ∷ calls) =
    let rest = answers items calls in
    if has_output items call.id then rest else aborted_output call ∷ rest

abbrev pub calls_of : ResponseItem → List ToolCall
calls_of (assistant content reasoning tool_calls) = tool_calls
calls_of item = []

unfoldable pub fill : List ResponseItem → List ResponseItem → List ResponseItem
fill items [] = []
fill items (item ∷ rest) = item ∷ (answers items (calls_of item) ++ fill items rest)

insert_at-append {ℓ} :
    {A : Type ℓ} (x : A) (before after : List A)
    → insert_at (length before) x (before ++ after) ≡ some (before ++ x ∷ after)
unfolding insert_at
insert_at-append x [] after = refl
insert_at-append x (y ∷ before) after = rw (insert_at-append x before after)

insert_after {ℓ} :
    {A : Type ℓ} (x y : A) (before after : List A)
    → insert_at (suc (length before)) x (before ++ y ∷ after) ≡ some (before ++ y ∷ x ∷ after)
unfolding insert_at
insert_after x y [] after = refl
insert_after x y (z ∷ before) after = rw (insert_after x y before after)

insert_outputs-append :
    (first second : List (ℕ × ResponseItem)) (items : List ResponseItem)
    → insert_outputs (first ++ second) items
      ≡ and_then (insert_outputs second items) (insert_outputs first)
unfolding insert_outputs
insert_outputs-append [] second items =
    elim (insert_outputs second items) as (λ r. r ≡ and_then r (λ xs. some xs)) [
      | none ↦ refl
      | some xs ↦ refl
    ]
insert_outputs-append ((index, item) ∷ first) second items =
    rw (insert_outputs-append first second items)
      (elim (insert_outputs second items)
        as (λ r.
          and_then (and_then r (insert_outputs first)) (insert_at (suc index) item)
          ≡ and_then r (λ xs. and_then (insert_outputs first xs) (insert_at (suc index) item))) [
            | none ↦ refl
            | some xs ↦ refl
          ])

insert_calls :
    (items before after : List ResponseItem) (item : ResponseItem) (calls : List ToolCall)
    → insert_outputs (missing_calls items (length before) calls) (before ++ item ∷ after)
      ≡ some (before ++ item ∷ (answers items calls ++ after))
unfolding insert_outputs missing_calls answers
insert_calls items before after item [] = refl
insert_calls items before after item (call ∷ calls) = elim (Bool-cases (has_output items call.id)) [
  | inl present ↦ rw present (insert_calls items before after item calls)
  | inr absent ↦ rw absent (
      rw (insert_calls items before after item calls)
        (insert_after (aborted_output call) item before (answers items calls ++ after)))
]

insert_item :
    (items before after : List ResponseItem) (item : ResponseItem)
    → insert_outputs (missing_at items (length before) item) (before ++ item ∷ after)
      ≡ some (before ++ item ∷ (answers items (calls_of item) ++ after))
unfolding missing_at insert_outputs answers
insert_item items before after (assistant content reasoning tool_calls) =
    insert_calls items before after (assistant content reasoning tool_calls) tool_calls
insert_item items before after (system content) = refl
insert_item items before after (user content) = refl
insert_item items before after (tool tool_call_id name content structured) = refl

insert_all :
    (items before rest : List ResponseItem) (index : ℕ)
    → index ≡ length before
    → insert_outputs (missing_outputs items index rest) (before ++ rest)
      ≡ some (before ++ fill items rest)
unfolding missing_outputs insert_outputs fill
insert_all items before [] index e = refl
insert_all items before (item ∷ rest) index e =
    let later =
      insert_all items (before ++ item ∷ []) rest (suc index)
        (omega (arith, e, length-append before (item ∷ []))) in
    let later' = simp append_assoc at later in
    rw
      (insert_outputs-append (missing_at items index item) (missing_outputs items (suc index) rest))
      (rw later' (rw e (insert_item items before (fill items rest) item)))

-- The insertions never go past the end of the list, and their result is the history in which each
-- assistant item is followed by an aborted output for every call of it that has no output.
pub ensure_tool_outputs_present-fill :
    (items : List ResponseItem) → ensure_tool_outputs_present items ≡ some (fill items items)
unfolding ensure_tool_outputs_present
ensure_tool_outputs_present-fill items = insert_all items [] items 0 refl
