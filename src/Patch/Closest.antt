-- ===== src/Patch/Closest.antt =====
-- The lines that apply_patch.rs shows when a hunk's lines are not found.
use cloud_agent.Base.{
  ℕ, zero, suc, ◌-◌, min, max, Bool, ◌&&◌, ◌||◌, Option, none, some, List, [], ◌∷◌, length, take,
  drop, ltb, leb, ◌==◌, if◌then◌else◌, or_else,
}
use cloud_agent.Base.Text.{Text, codes, text_eq, trim, is_empty}
use cloud_agent.Base.Lines.{strip_prefix, contains}
use cloud_agent.Patch.Seek.{normalize_common_text_differences}

-- `split_once`, without what stands before the marker.
unfoldable split_after : Text → Text → Option Text
unfolding strip_prefix
split_after marker [] = strip_prefix marker []
split_after marker (c ∷ s) = or_else (strip_prefix marker (c ∷ s)) (split_after marker s)

unfoldable is_name_char : ℕ → Bool
is_name_char c =
    (leb b'0' c && leb c b'9')
    || (leb b'A' c && leb c b'Z')
    || (leb b'a' c && leb c b'z')
    || c == b'_'

unfoldable take_name : Text → Text
unfolding is_name_char
take_name [] = []
take_name (c ∷ s) = let rest = take_name s in if is_name_char c then c ∷ rest else []

unfoldable item_name_at : List Text → Text → Option Text
unfolding split_after take_name is_empty
item_name_at [] trimmed = none
item_name_at (marker ∷ markers) trimmed =
    let later = item_name_at markers trimmed in
    elim (split_after marker trimmed) [
      | none ↦ later
      | some rest ↦ let name = take_name rest in if is_empty name then later else some name
    ]

unfoldable extract_rust_item_name : Text → Option Text
unfolding item_name_at trim
extract_rust_item_name line =
    let markers =
      codes "fn " ∷ codes "struct " ∷ codes "enum " ∷ codes "trait " ∷ codes "impl " ∷ [] in
    item_name_at markers (trim line)

unfoldable anchors : List Text → List Text
unfolding extract_rust_item_name trim is_empty
anchors [] = []
anchors (line ∷ pattern) =
    let rest = anchors pattern in
    let trimmed = trim line in
    let values : List Text = elim (extract_rust_item_name line) [
      | none ↦ trimmed ∷ rest
      | some name ↦ name ∷ trimmed ∷ rest
    ] in
    if is_empty trimmed then rest else values

-- `position`: the first line, counted from `index`, whose trimmed text contains the anchor.
unfoldable position : Text → ℕ → List Text → Option ℕ
unfolding contains trim
position anchor index [] = none
position anchor index (line ∷ lines) =
    let rest = position anchor (suc index) lines in
    if contains (trim line) anchor then some index else rest

unfoldable find_anchor : List Text → List Text → Option ℕ
unfolding position
find_anchor lines [] = none
find_anchor lines (anchor ∷ rest) = or_else (position anchor 0 lines) (find_anchor lines rest)

unfoldable closest_anchor_index : List Text → List Text → Option ℕ
unfolding find_anchor anchors
closest_anchor_index lines pattern = find_anchor lines (anchors pattern)

-- How many of the lines agree, one by one, with the pattern.
unfoldable agreeing_lines : List Text → List Text → ℕ
unfolding text_eq normalize_common_text_differences
agreeing_lines [] pattern = 0
agreeing_lines (line ∷ lines) [] = 0
agreeing_lines (line ∷ lines) (expected ∷ pattern) =
    let rest = agreeing_lines lines pattern in
    let same =
      text_eq (normalize_common_text_differences line)
        (normalize_common_text_differences expected) in
    if same then suc rest else rest

-- The best window of `count` windows from `index` on, and its agreeing_lines; a later one must be better.
unfoldable best_window : List Text → List Text → ℕ → ℕ → Option (ℕ × ℕ) → Option (ℕ × ℕ)
unfolding agreeing_lines
best_window lines pattern index zero best = best
best_window lines pattern index (suc count) best =
    let here = agreeing_lines (drop index lines) pattern in
    let least : ℕ = elim best [ none ↦ 0 | some (_, best_score) ↦ best_score ] in
    best_window lines pattern (suc index) count
      (if ltb least here then some (index, here) else best)

unfoldable pub closest_current_lines : List Text → List Text → Option (List Text)
unfolding closest_anchor_index best_window is_empty
closest_current_lines lines pattern =
    let window_len = min (length pattern) (length lines) in
    let windows = suc (length lines - window_len) in
    let by_score : Option (List Text) =
      elim (best_window lines (take window_len pattern) 0 windows none) [
        | none ↦ none
        | some (index, best) ↦ if best == 0 then none else some (take window_len (drop index lines))
      ] in
    let by_anchor : Option (List Text) = elim (closest_anchor_index lines pattern) [
      | none ↦ by_score
      | some index ↦
          let count = min (max (length pattern) 1) (length lines - index) in
          some (take count (drop index lines))
    ] in
    if is_empty lines || is_empty pattern then none else by_anchor
