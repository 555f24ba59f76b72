-- ===== src/Compaction/Summary/Prefix.antt =====
-- The mark at the head of a summary.
use cloud_agent.Base.{ℕ, ◌≡◌, true, false, [], ◌∷◌, ◌++◌, arith, Bool-cases, inl, inr}
use cloud_agent.Base.Text.{
  Text, codes, starts_with, starts_with-append, trim_start, trim, is_whitespace,
}
use cloud_agent.Data.Input.{text_input_items}
use cloud_agent.Data.Response.{ResponseItem, user}
use cloud_agent.Data.Event.{CompactionSummary}
use cloud_agent.Conversation.Markers.{
  counts_as_real_user_turn, is_context_summary_item, context_summary_prefix,
}
use cloud_agent.Compaction.Summary.{rendered, normalize_summary, summary_body}
use cloud_agent.Base.Lines.{replace_crlf}

normalize_summary-starts :
    (s : Text) → starts_with (normalize_summary s) context_summary_prefix ≡ true
unfolding normalize_summary
normalize_summary-starts s =
    elim (Bool-cases (starts_with (replace_crlf (trim s)) context_summary_prefix)) [
      | inl has ↦ rw has has
      | inr lacks ↦
          rw lacks
            (starts_with-append context_summary_prefix (codes "\n\n" ++ replace_crlf (trim s)))
    ]

bracket_visible : (c : ℕ) → c ≡ 91 → is_whitespace c ≡ false
unfolding is_whitespace
bracket_visible c e = rw e

first_bracket : (c : ℕ) (t : Text) → starts_with (c ∷ t) context_summary_prefix ≡ true → c ≡ 91
unfolding starts_with
first_bracket c t h = ground arith

-- A text that begins with `[` has no white space to trim.
trim_start_bracket :
    (t : Text)
    → starts_with t context_summary_prefix ≡ true
    → starts_with (trim_start t) context_summary_prefix ≡ true
unfolding trim_start
trim_start_bracket [] h = h
trim_start_bracket (c ∷ t) h = rw (bracket_visible c (first_bracket c t h)) h

rendered-starts : (s : CompactionSummary) → starts_with (rendered s) context_summary_prefix ≡ true
unfolding rendered
rendered-starts s = normalize_summary-starts (summary_body s)

summary_text :
    (t : Text)
    → starts_with (trim_start t) context_summary_prefix ≡ true
    → is_context_summary_item (user (text_input_items t)) ≡ true
unfolding is_context_summary_item text_input_items
summary_text t h = h

not_real :
    (item : ResponseItem)
    → is_context_summary_item item ≡ true
    → counts_as_real_user_turn item ≡ false
unfolding counts_as_real_user_turn
not_real item h = ground (arith, h)

-- Whatever the model wrote, the rendered summary is recognised as a context summary, and so is
-- not counted as a turn of the user.
pub rendered_is_summary :
    (s : CompactionSummary)
    → (is_context_summary_item (user (text_input_items (rendered s))) ≡ true)
      × (counts_as_real_user_turn (user (text_input_items (rendered s))) ≡ false)
rendered_is_summary s =
    let found = summary_text (rendered s) (trim_start_bracket (rendered s) (rendered-starts s)) in
    (found, not_real _ found)
