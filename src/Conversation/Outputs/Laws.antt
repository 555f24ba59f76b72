-- ===== src/Conversation/Outputs/Laws.antt =====
-- The history that `ensure_tool_outputs_present` of conversation/history.rs returns.
use mathlib.Core.List.{Sublistᴰ}
use cloud_agent.Base.{
  ◌≡◌, refl, ap, ◌∙◌, true, some, List, [], ◌∷◌, ◌++◌, arith, All, any-append, Bool-cases, inl, inr,
}
use cloud_agent.Base.Text.{Text, text_eq_refl}
use cloud_agent.Data.Tool.{ToolCall}
use cloud_agent.Data.Response.{ResponseItem}
use cloud_agent.Conversation.Outputs.{
  is_output_of, has_output, aborted_output, ensure_tool_outputs_present,
}
use cloud_agent.Conversation.Outputs.Fill.{
  answers, calls_of, fill, ensure_tool_outputs_present-fill,
}

-- Every call of every item has an output among `all`.
abbrev pub IsAnswered : List ResponseItem → List ResponseItem → Type 0
IsAnswered all items = All (λ item. All (λ c. has_output all c.id ≡ true) (calls_of item)) items

IsAnswered-append :
    (all xs ys : List ResponseItem)
    → IsAnswered all xs
    → IsAnswered all ys
    → IsAnswered all (xs ++ ys)
IsAnswered-append all [] ys p q = q
IsAnswered-append all (x ∷ xs) ys p q = (p.0, IsAnswered-append all xs ys p.1 q)

-- An answer makes no call itself.
answers-IsAnswered :
    (all items : List ResponseItem) (calls : List ToolCall) → IsAnswered all (answers items calls)
unfolding answers aborted_output
answers-IsAnswered all items [] = tt
answers-IsAnswered all items (call ∷ calls) = elim (Bool-cases (has_output items call.id)) [
  | inl present ↦ rw present (answers-IsAnswered all items calls)
  | inr absent ↦ rw absent (tt, answers-IsAnswered all items calls)
]

aborted_output-has :
    (call : ToolCall) (xs : List ResponseItem)
    → has_output (aborted_output call ∷ xs) call.id ≡ true
unfolding aborted_output is_output_of
aborted_output-has call xs = rw (text_eq_refl call.id)

has_output-cons :
    (id : Text) (x : ResponseItem) (xs : List ResponseItem)
    → has_output xs id ≡ true
    → has_output (x ∷ xs) id ≡ true
has_output-cons id x xs h = ground arith

calls_answered :
    (all items : List ResponseItem) (calls : List ToolCall)
    → ((id : Text) → has_output items id ≡ true → has_output all id ≡ true)
    → ((id : Text) → has_output (answers items calls) id ≡ true → has_output all id ≡ true)
    → All (λ c. has_output all c.id ≡ true) calls
unfolding answers
calls_answered all items [] old new = tt
calls_answered all items (call ∷ calls) old new = elim (Bool-cases (has_output items call.id)) [
  | inl present ↦
      (old call.id present, calls_answered all items calls old (λ id h. new id (rw present h)))
  | inr absent ↦ (
    new call.id (rw absent (aborted_output-has call (answers items calls))),
    calls_answered all items calls old
        (λ id h. new id (rw absent (has_output-cons id (aborted_output call) _ h))),
  )
]

fill-IsAnswered :
    (all items rest : List ResponseItem)
    → ((id : Text) → has_output items id ≡ true → has_output all id ≡ true)
    → ((id : Text) → has_output (fill items rest) id ≡ true → has_output all id ≡ true)
    → IsAnswered all (fill items rest)
unfolding fill
fill-IsAnswered all items [] old new = tt
fill-IsAnswered all items (item ∷ rest) old new =
    let now = answers items (calls_of item) in
    let left = λ (id : Text) (h : has_output now id ≡ true). new id (
      has_output-cons id item _
        (ground (arith, any-append (is_output_of id) now (fill items rest)))) in
    let right = λ (id : Text) (h : has_output (fill items rest) id ≡ true). new id (
      has_output-cons id item _
        (ground (arith, any-append (is_output_of id) now (fill items rest)))) in
    (
      calls_answered all items (calls_of item) old left,
      IsAnswered-append all now (fill items rest) (answers-IsAnswered all items (calls_of item))
          (fill-IsAnswered all items rest old right),
    )

has_output-fill :
    (items rest : List ResponseItem) (id : Text)
    → has_output rest id ≡ true
    → has_output (fill items rest) id ≡ true
unfolding fill
has_output-fill items [] id h = h
has_output-fill items (item ∷ rest) id h =
    let now = answers items (calls_of item) in
    ground
      (arith, has_output-fill items rest id, any-append (is_output_of id) now (fill items rest))

Sublistᴰ-answers :
    (items : List ResponseItem) (calls : List ToolCall) (xs ys : List ResponseItem)
    → Sublistᴰ xs ys
    → Sublistᴰ xs (answers items calls ++ ys)
unfolding answers
Sublistᴰ-answers items [] xs ys s = s
Sublistᴰ-answers items (call ∷ calls) xs ys s = elim (Bool-cases (has_output items call.id)) [
  | inl present ↦ rw present (Sublistᴰ-answers items calls xs ys s)
  | inr absent ↦ rw absent (Sublistᴰ.cons (Sublistᴰ-answers items calls xs ys s))
]

Sublistᴰ-fill : (items rest : List ResponseItem) → Sublistᴰ rest (fill items rest)
unfolding fill
Sublistᴰ-fill items [] = Sublistᴰ.slnil
Sublistᴰ-fill items (item ∷ rest) =
    Sublistᴰ.cons-cons refl
      (Sublistᴰ-answers items (calls_of item) rest _ (Sublistᴰ-fill items rest))

answers_none :
    (all : List ResponseItem) (calls : List ToolCall)
    → All (λ c. has_output all c.id ≡ true) calls
    → answers all calls ≡ []
unfolding answers
answers_none all [] h = refl
answers_none all (call ∷ calls) h = rw (h.0) (answers_none all calls h.1)

fill_none : (all rest : List ResponseItem) → IsAnswered all rest → fill all rest ≡ rest
unfolding fill
fill_none all [] h = refl
fill_none all (item ∷ rest) h =
    rw (answers_none all (calls_of item) h.0) (ap (◌∷◌ item) (fill_none all rest h.1))

-- On every history the call returns without a panic; in the result every tool call has an output
-- with its id, all earlier items stand in their old order, and a second call changes nothing.
pub ensure_tool_outputs_present_total :
    (items : List ResponseItem)
    → (out : List ResponseItem) × (ensure_tool_outputs_present items ≡ some out)
      × IsAnswered out out
      × Sublistᴰ items out
      × (ensure_tool_outputs_present out ≡ some out)
ensure_tool_outputs_present_total items =
    let out = fill items items in
    let answered =
      fill-IsAnswered out items items (λ id. has_output-fill items items id) (λ id h. h) in
    (
      out,
      ensure_tool_outputs_present-fill items,
      answered,
      Sublistᴰ-fill items items,
      ensure_tool_outputs_present-fill out ∙ ap some (fill_none out out answered),
    )

-- A history in which every tool call has an output is left as it is.
pub ensure_tool_outputs_present_stable :
    (items : List ResponseItem)
    → IsAnswered items items
    → ensure_tool_outputs_present items ≡ some items
ensure_tool_outputs_present_stable items h =
    ensure_tool_outputs_present-fill items ∙ ap some (fill_none items items h)
