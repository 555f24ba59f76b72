-- ===== src/Witnesses/Truncations.antt =====
-- A text that is cut.
use cloud_agent.Base.{◌≡◌, refl, ◌≤◌, ◌++◌, none, arith}
use cloud_agent.Base.Text.{Text, codes}
use cloud_agent.Truncation.{approximate_token_count, notice_of, truncate_text_to_token_budget}
use cloud_agent.Truncation.Budget.{truncate_text_to_token_budget_fits}

abbrev twenty : Text
twenty = codes "abcdefghijklmnopqrst"

abbrev eighty : Text
eighty = (twenty ++ twenty) ++ (twenty ++ twenty)

cut_in_the_middle :
    (truncate_text_to_token_budget eighty 16 none).text
    ≡ codes "abcdefghijklmno\n[11 tokens truncated]\nlmnopqrst"
unfolding truncate_text_to_token_budget
cut_in_the_middle = refl

truncate_text_to_token_budget_fits_example :
    approximate_token_count (truncate_text_to_token_budget eighty 16 none).text ≤ 16
unfolding notice_of approximate_token_count
truncate_text_to_token_budget_fits_example =
    truncate_text_to_token_budget_fits eighty 16 none (omega arith) (omega arith)
