-- ===== src/Turn/LoopGuard.antt =====
-- crates/agent-core/src/turn/loop_guard.rs: stops a turn that repeats the same tool calls with the
-- same results.
pub mod Repeats
use cloud_agent.Base.{
  ℕ, zero, suc, Bool, true, false, ◌&&◌, ◌||◌, Option, none, some, List, [], ◌∷◌, ◌++◌, map, any,
  keep, leb, ◌==◌, holds, if◌then◌else◌, wrapping_add,
}
use cloud_agent.Base.Text.{Text, codes, text_eq, join, is_empty, Text-discrete}
use cloud_agent.Data.Tool.{Json, ToolCall, ToolSpec, ToolIdentity, StructuredToolResult}
use cloud_agent.Data.Response.{ResponseItem, system, user, assistant, tool}
use cloud_agent.Conversation.Outputs.{and_then}

pub record RoundtripSignature : Type 0 where
  pub tool_calls : List Text
  pub tool_results : List Text

pub record LoopGuard : Type 0 where
  pub last_signature : Option RoundtripSignature
  pub repeated_count : ℕ  -- usize
  pub threshold : ℕ

pub record LoopAbort : Type 0 where
  pub repeated_count : ℕ

abbrev pub new_guard : LoopGuard
new_guard = record { last_signature = none; repeated_count = 0; threshold = 3 }

pub reset : LoopGuard → LoopGuard
reset g = record g { last_signature = none; repeated_count = 0 }

pub Texts-discrete : Discrete (List Text)
unfolding Text-discrete
Texts-discrete = hlevel Text-discrete

pub signature_eq : RoundtripSignature → RoundtripSignature → Bool
unfolding Texts-discrete
signature_eq s t =
    holds (Texts-discrete s.tool_calls t.tool_calls)
    && holds (Texts-discrete s.tool_results t.tool_results)

abbrev pub is_last : RoundtripSignature → Option RoundtripSignature → Bool
is_last signature none = false
is_last signature (some last) = signature_eq last signature

abbrev pub counted : RoundtripSignature → LoopGuard → LoopGuard
counted signature g =
    if is_last signature g.last_signature
    then record g { repeated_count = wrapping_add g.repeated_count 1 }
    else record g { last_signature = some signature; repeated_count = 1 }

abbrev pub abort_of : LoopGuard → Option LoopAbort
abort_of g =
    if leb g.threshold g.repeated_count
    then some (record { repeated_count = g.repeated_count })
    else none

-- `record_roundtrip` on the signature that was built.
pub record_signature : Option RoundtripSignature → LoopGuard → Option LoopAbort × LoopGuard
record_signature none g = (none, reset g)
record_signature (some signature) g = (abort_of (counted signature g), counted signature g)

-- `str::split_once`.
pub split_once : ℕ → Text → Option (Text × Text)
split_once sep [] = none
split_once sep (c ∷ s) =
    let rest = and_then (split_once sep s) (λ p. some (c ∷ p.0, p.1)) in
    if c == sep then some ([], s) else rest

unfoldable pub spec_is_mutating : List ToolSpec → ToolCall → Bool
spec_is_mutating [] call = false
spec_is_mutating (spec ∷ specs) call =
    let rest = spec_is_mutating specs call in
    if text_eq spec.identity.wire_name call.identity.wire_name then spec.mutating else rest

abbrev pub is_call_of : Text → Text → ToolCall → Bool
is_call_of wire_name arguments call =
    text_eq call.identity.wire_name wire_name && text_eq call.arguments arguments

abbrev pub call_signature : ToolCall → Text
call_signature call = call.identity.wire_name ++ codes ":" ++ call.arguments

-- The result of a call before the results of the calls behind it.
abbrev pub add_result :
    Option (Option Text) → Option (Option (List Text)) → Option (Option (List Text))
add_result none rest = none
add_result (some none) rest = some none
add_result (some (some result)) none = none
add_result (some (some result)) (some none) = some none
add_result (some (some result)) (some (some results)) = some (some (result ∷ results))

abbrev pub signed : List Text → Option (List Text) → Option RoundtripSignature
signed signatures none = none
signed signatures (some results) = some (record { tool_calls = signatures; tool_results = results })

-- `serde_json::to_string` of a structured result, "" if it fails.
module _ (to_string : StructuredToolResult → Text) where
  abbrev structured_text : Option StructuredToolResult → Text
  structured_text none = []
  structured_text (some value) = to_string value

  abbrev result_of : List Text → ResponseItem → List Text
  result_of call_ids (tool call_id name content structured) =
      if any (λ id. text_eq id call_id) call_ids
      then (name ++ codes ":" ++ content ++ codes ":" ++ structured_text structured) ∷ []
      else []
  result_of call_ids item = []

  unfoldable pub results_after : List Text → List ResponseItem → List Text
  results_after call_ids [] = []
  results_after call_ids (item ∷ items) = result_of call_ids item ++ results_after call_ids items

  abbrev calls_in : ResponseItem → List ToolCall
  calls_in (assistant content reasoning calls) = calls
  calls_in item = []

  -- The ids of the calls in the last assistant message that has one, and what follows it.
  unfoldable pub latest_calls :
      Text → Text → List ResponseItem → Option (List Text × List ResponseItem)
  latest_calls wire_name arguments [] = none
  latest_calls wire_name arguments (item ∷ items) =
      let found = keep (is_call_of wire_name arguments) (calls_in item) in
      elim (latest_calls wire_name arguments items) [
        | some later ↦ some later
        | none ↦ if is_empty found then none else some (map (λ call. call.id) found, items)
      ]

  abbrev joined : List Text → Option Text
  joined [] = none
  joined (r ∷ rs) = some (join (codes "\n") (r ∷ rs))

  unfoldable pub find_latest_result : List ResponseItem → Text → Text → Option Text
  find_latest_result history wire_name arguments =
      and_then (latest_calls wire_name arguments history) (λ p. joined (results_after p.0 p.1))

  -- A step of the loop over the signatures of the calls; the outer `none` is a panic, the inner one
  -- a call without a result.
  abbrev result_for : List ResponseItem → Text → Option (Option Text)
  result_for history signature =
      and_then (split_once 58 signature) (λ p. some (find_latest_result history p.0 p.1))

  pub results_for : List ResponseItem → List Text → Option (Option (List Text))
  results_for history [] = some (some [])
  results_for history (s ∷ signatures) =
      add_result (result_for history s) (results_for history signatures)

  pub build_signature :
      List ToolCall → List ToolSpec → List ResponseItem → Option (Option RoundtripSignature)
  build_signature calls specs history =
      let signatures = map call_signature calls in
      let results = results_for history signatures in
      if is_empty calls
      then some none
      else if any (spec_is_mutating specs) calls
      then some none
      else and_then results (λ o. some (signed signatures o))

  -- `none` is a panic.
  pub record_roundtrip :
      List ToolCall
      → List ToolSpec
      → List ResponseItem
      → LoopGuard
      → Option (Option LoopAbort × LoopGuard)
  record_roundtrip calls specs history g =
      and_then (build_signature calls specs history)
        (λ signature. some (record_signature signature g))
