-- ===== src/Compaction/Estimate.antt =====
-- crates/agent-core/src/context/compaction/support.rs: token estimates.
use cloud_agent.Base.{
  ℕ, ◌+◌, ◌/◌, max, Option, none, some, List, [], ◌∷◌, ◌++◌, map, if◌then◌else◌, length,
}
use cloud_agent.Base.Text.{
  Text, codes, byte_len, trim, join, is_empty, split_whitespace, replace_char, split_first, snippet,
}
use cloud_agent.Data.Input.{
  ImageDetail, auto, low, high, original, AttachmentRef, inline_data_url, remote_url, hub_asset,
  local_path, InputItem, text, image, file, mention, skill,
}
use cloud_agent.Data.Tool.{ToolCall}
use cloud_agent.Data.Response.{ResponseItem, system, user, assistant, tool}

unfoldable pub single_line : Text → Text
unfolding join split_whitespace replace_char snippet
single_line value =
    let compact = replace_char 13 32 (replace_char 10 32 value) in
    snippet 220 (join (codes " ") (split_whitespace compact))

unfoldable render_attachment_ref : AttachmentRef → Text
unfolding single_line split_first
render_attachment_ref (inline_data_url data_url) = split_first b',' data_url ++ codes ",..."
render_attachment_ref (remote_url url) = single_line url
render_attachment_ref (hub_asset asset_id none) = codes "hub:" ++ asset_id
render_attachment_ref (hub_asset asset_id (some download_url)) =
    codes "hub:" ++ (asset_id ++ (codes " (" ++ (single_line download_url ++ codes ")")))
render_attachment_ref (local_path path) = single_line path

unfoldable render_image_detail : ImageDetail → Text
render_image_detail auto = codes "auto"
render_image_detail low = codes "low"
render_image_detail high = codes "high"
render_image_detail original = codes "original"

-- A part that stands only for a value that is present and not blank.
named_part : Text → (Text → Text) → Option Text → List Text
unfolding trim is_empty
named_part label render none = []
named_part label render (some value) =
    if is_empty (trim value) then [] else (label ++ render value) ∷ []

detail_part : Option ImageDetail → List Text
unfolding render_image_detail
detail_part none = []
detail_part (some detail) = (codes "detail=" ++ render_image_detail detail) ∷ []

unfoldable render_input_item_for_compaction : InputItem → Text
unfolding named_part detail_part render_attachment_ref join single_line
render_input_item_for_compaction (text t) = t
render_input_item_for_compaction (image source detail alt) =
    join (codes " ") (
      codes "[image"
      ∷ (named_part (codes "alt=") single_line alt
          ++ (detail_part detail ++ (codes "source=" ++ render_attachment_ref source) ∷ [])))
    ++ codes "]"
render_input_item_for_compaction (file source mime_type name) =
    join (codes " ") (
      codes "[file"
      ∷ (named_part (codes "name=") single_line name
          ++ (named_part (codes "mime=") (λ mime. mime) mime_type
              ++ (codes "source=" ++ render_attachment_ref source) ∷ [])))
    ++ codes "]"
render_input_item_for_compaction (mention name path) =
    codes "[mention @" ++ (name ++ (codes " path=" ++ (single_line path ++ codes "]")))
render_input_item_for_compaction (skill name path) =
    codes "[skill $" ++ (name ++ (codes " path=" ++ (single_line path ++ codes "]")))

unfoldable pub render_input_items_for_compaction : List InputItem → Text
unfolding render_input_item_for_compaction join
render_input_items_for_compaction items =
    join (codes "\n") (map render_input_item_for_compaction items)

unfoldable pub estimate_text_tokens : Text → ℕ
estimate_text_tokens t = max (length t / 3) 1

tool_calls_len : List ToolCall → ℕ
tool_calls_len [] = 0
tool_calls_len (call ∷ calls) = byte_len call.name + byte_len call.arguments + tool_calls_len calls

optional_len : Option Text → ℕ
optional_len none = 0
optional_len (some t) = byte_len t

unfoldable item_chars : ResponseItem → ℕ
unfolding tool_calls_len optional_len byte_len render_input_items_for_compaction
item_chars (system content) = byte_len content
item_chars (user content) = byte_len (render_input_items_for_compaction content)
item_chars (assistant content reasoning tool_calls) =
    optional_len content + tool_calls_len tool_calls
item_chars (tool tool_call_id name content structured) = byte_len name + byte_len content

pub total_chars : List ResponseItem → ℕ
unfolding item_chars
total_chars [] = 0
total_chars (item ∷ items) = item_chars item + total_chars items

unfoldable pub estimate_message_tokens : List ResponseItem → ℕ
unfolding total_chars
estimate_message_tokens messages = max (total_chars messages / 3) 1
