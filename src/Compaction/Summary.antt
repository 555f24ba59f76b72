-- ===== src/Compaction/Summary.antt =====
-- crates/agent-core/src/context/compaction/summary.rs: the summary that the model writes, and how
-- it is read and rendered.
pub mod Prefix
use cloud_agent.Base.{
  ℕ, zero, suc, Bool, true, false, ◌||◌, ◌-◌, ◌≤◌, Option, none, some, List, [], ◌∷◌, ◌++◌, map,
  if◌then◌else◌, ◌==◌, length, ltb, leb, saturating_mul, max,
}
use mathlib.Core.List.{reverse}
use cloud_agent.Base.Text.{Text, codes, text_eq, trim, is_empty, join, starts_with, snippet}
use cloud_agent.Base.Lines.{lines, replace_crlf, ends_with, trim_start_matches}
use cloud_agent.Data.Tool.{ToolCall}
use cloud_agent.Data.Response.{ResponseItem, system, user, assistant, tool}
use cloud_agent.Data.Event.{CompactionSummary}
use cloud_agent.Compaction.Estimate.{
  single_line, estimate_text_tokens, render_input_items_for_compaction,
}

pub data Section : Type 0 where
  current_task progress key_decisions important_context tool_code_facts next_steps : Section

unfoldable empty_summary : CompactionSummary
empty_summary = record {
  current_task = [];
  progress = [];
  key_decisions = [];
  important_context = [];
  tool_code_facts = [];
  next_steps = [];
}

-- The `match trimmed` of `from_model_output`; `none` is its last arm.
unfoldable heading : Text → Option Section
unfolding text_eq
heading trimmed =
    if text_eq trimmed (codes "Current Task:")
    then some current_task
    else if text_eq trimmed (codes "Progress:")
    then some progress
    else if text_eq trimmed (codes "Key Decisions:")
    then some key_decisions
    else if text_eq trimmed (codes "Important Context:")
    then some important_context
    else if text_eq trimmed (codes "Tool / Code Facts:")
    then some tool_code_facts
    else if text_eq trimmed (codes "Next Steps:")
    then some next_steps
    else none

unfoldable push : Option Section → Text → CompactionSummary → CompactionSummary
push none value s = s
push (some current_task) value s = record s { current_task = s.current_task ++ value ∷ [] }
push (some progress) value s = record s { progress = s.progress ++ value ∷ [] }
push (some key_decisions) value s = record s { key_decisions = s.key_decisions ++ value ∷ [] }
push (some important_context) value s = record s {
  important_context = s.important_context ++ value ∷ [];
}
push (some tool_code_facts) value s = record s { tool_code_facts = s.tool_code_facts ++ value ∷ [] }
push (some next_steps) value s = record s { next_steps = s.next_steps ++ value ∷ [] }

abbrev or_else : Option Section → Option Section → Option Section
or_else none current = current
or_else (some section) current = some section

-- One line of the model's output: the section that is current after it, and the summary.
unfoldable read_line :
    Text → Option Section × CompactionSummary → Option Section × CompactionSummary
unfolding heading push trim is_empty ends_with trim_start_matches text_eq
read_line line (current, summary) =
    let trimmed = trim line in
    let section = or_else (heading trimmed) current in
    let value = trim_start_matches (codes "- ") trimmed in
    if is_empty trimmed || text_eq trimmed (codes "[Context Summary]")
    then (current, summary)
    else if ends_with b':' trimmed
    then (section, summary)
    else if is_empty value
    then (section, summary)
    else (section, push section value summary)

unfoldable read_lines :
    List Text → Option Section × CompactionSummary → Option Section × CompactionSummary
unfolding read_line
read_lines [] state = state
read_lines (line ∷ rest) state = read_lines rest (read_line line state)

unfoldable from_model_output : Text → CompactionSummary
unfolding read_lines lines empty_summary
from_model_output output = (read_lines (lines output) (none, empty_summary)).1

unfoldable render_bullets : List Text → Text
unfolding join
render_bullets items = join (codes "\n") (map (λ line. codes "- " ++ line) items)

pub normalize_summary : Text → Text
unfolding trim replace_crlf starts_with
normalize_summary summary =
    let trimmed = replace_crlf (trim summary) in
    if starts_with trimmed (codes "[Context Summary]")
    then trimmed
    else codes "[Context Summary]\n\n" ++ trimmed

-- The `format!` of `rendered`.
unfoldable pub summary_body : CompactionSummary → Text
unfolding render_bullets
summary_body s =
    (codes "Current Task:\n"
      ++ (render_bullets s.current_task
          ++ (codes "\n\nProgress:\n"
              ++ (render_bullets s.progress
                  ++ (codes "\n\nKey Decisions:\n"
                      ++ (render_bullets s.key_decisions
                          ++ (codes "\n\nImportant Context:\n"
                              ++ (render_bullets s.important_context
                                  ++ (codes "\n\nTool / Code Facts:\n"
                                      ++ (render_bullets s.tool_code_facts
                                          ++ (codes "\n\nNext Steps:\n"
                                              ++ render_bullets s.next_steps)))))))))))

pub rendered : CompactionSummary → Text
rendered s = normalize_summary (summary_body s)

call_lines : List ToolCall → List Text
unfolding single_line
call_lines [] = []
call_lines (call ∷ calls) =
    (codes "ASSISTANT_TOOL_CALL: " ++ (call.name ++ (codes " " ++ single_line call.arguments)))
    ∷ call_lines calls

content_lines : Option Text → List Text
unfolding single_line trim is_empty
content_lines none = []
content_lines (some content) =
    if is_empty (trim content) then [] else (codes "ASSISTANT: " ++ single_line content) ∷ []

unfoldable source_lines : List ResponseItem → List Text
unfolding call_lines content_lines single_line render_input_items_for_compaction
source_lines [] = []
source_lines (system content ∷ items) =
    (codes "SYSTEM: " ++ single_line content) ∷ source_lines items
source_lines (user content ∷ items) =
    (codes "USER: " ++ single_line (render_input_items_for_compaction content)) ∷ source_lines items
source_lines (assistant content reasoning tool_calls ∷ items) =
    content_lines content ++ (call_lines tool_calls ++ source_lines items)
source_lines (tool tool_call_id name content structured ∷ items) =
    (codes "TOOL_RESULT(" ++ (name ++ (codes "): " ++ single_line content))) ∷ source_lines items

no_context : List Text → Text
unfolding join
no_context [] = codes "No prior context available."
no_context (line ∷ rest) = join (codes "\n") (line ∷ rest)

unfoldable render_compaction_source : List ResponseItem → Text
unfolding source_lines no_context
render_compaction_source prefix = no_context (source_lines prefix)

unfoldable truncate_text_tokens : Text → ℕ → Text
unfolding snippet
truncate_text_tokens text token_budget = snippet (max (saturating_mul token_budget 3) 1) text

-- The loop over the lines in reverse: `kept` holds the newest line last, in the order pushed.
unfoldable keep_lines : List Text → List Text → ℕ → List Text
unfolding estimate_text_tokens truncate_text_tokens
keep_lines [] kept remaining = kept
keep_lines (line ∷ rest) kept remaining =
    let line_tokens = max (estimate_text_tokens line) 1 in
    let next = keep_lines rest (kept ++ line ∷ []) (remaining - line_tokens) in
    if ltb remaining line_tokens
    then (if is_empty kept then kept ++ truncate_text_tokens line (max remaining 1) ∷ [] else kept)
    else next

unfoldable truncate_summary_source : Text → ℕ → Text
unfolding keep_lines lines estimate_text_tokens join
truncate_summary_source source max_tokens =
    if leb (estimate_text_tokens source) max_tokens
    then source
    else join (codes "\n") (reverse (keep_lines (reverse (lines source)) [] max_tokens))
