-- ===== src/Data/Input.antt =====
-- crates/agent-core/src/conversation/input.rs: what a user message holds, and its text.
use cloud_agent.Base.{
  ℕ, suc, ◌-◌, Bool, true, false, Option, none, some, List, [], ◌∷◌, ◌++◌, map, leb, if◌then◌else◌,
  length, keep, ℕ_discrete,
}
use cloud_agent.Base.Text.{Text, codes, trim, join, split_whitespace, is_empty}

pub data ImageDetail : Type 0 where
  auto low high original : ImageDetail

pub data AttachmentRef : Type 0 where
  inline_data_url : Text → AttachmentRef
  remote_url : Text → AttachmentRef
  hub_asset : Text → Option Text → AttachmentRef
  local_path : Text → AttachmentRef

-- The fields of each constructor in the source's order.
pub data InputItem : Type 0 where
  text : Text → InputItem
  image : AttachmentRef → Option ImageDetail → Option Text → InputItem
  file : AttachmentRef → Option Text → Option Text → InputItem
  mention : Text → Text → InputItem
  skill : Text → Text → InputItem

-- The derived `PartialEq` of `Vec<InputItem>`.
unfoldable pub InputItems-discrete : Discrete (List InputItem)
unfolding ℕ_discrete
InputItems-discrete = hlevel ℕ_discrete

unfoldable display_text : InputItem → Text
display_text (text t) = t
display_text (image source detail none) = codes "[image]"
display_text (image source detail (some alt)) = codes "[image: " ++ (alt ++ codes "]")
display_text (file source mime_type none) = codes "[file]"
display_text (file source mime_type (some name)) = codes "[file: " ++ (name ++ codes "]")
display_text (mention name path) = codes "@" ++ name
display_text (skill name path) = codes "$" ++ name

is_attachment : InputItem → Bool
is_attachment (image source detail alt) = true
is_attachment (file source mime_type name) = true
is_attachment item = false

unfoldable input_items_attachment_count : List InputItem → ℕ
unfolding is_attachment
input_items_attachment_count items = length (keep is_attachment items)

unfoldable input_items_display_text : List InputItem → Text
unfolding display_text join
input_items_display_text items = join (codes "\n") (map display_text items)

unfoldable pub input_items_to_plain_text : List InputItem → Text
unfolding input_items_display_text
input_items_to_plain_text items = input_items_display_text items

unfoldable input_items_text_len : List InputItem → ℕ
unfolding input_items_to_plain_text
input_items_text_len items = length (input_items_to_plain_text items)

unfoldable input_items_are_blank : List InputItem → Bool
unfolding input_items_to_plain_text trim is_empty
input_items_are_blank items = is_empty (trim (input_items_to_plain_text items))

unfoldable pub text_input_items : Text → List InputItem
text_input_items t = text t ∷ []

-- The loop over `preview.chars().enumerate()`: at `max_chars - 1` (or 0) it writes `…` and stops.
preview_loop : ℕ → Text → Text
preview_loop room [] = []
preview_loop ℕ.zero (c ∷ s) = codes "…"
preview_loop (suc room) (c ∷ s) = c ∷ preview_loop room s

unfoldable input_items_preview_text : List InputItem → ℕ → Text
unfolding input_items_display_text split_whitespace preview_loop join
input_items_preview_text items max_chars =
    let preview = join (codes " ") (split_whitespace (input_items_display_text items)) in
    if leb (length preview) max_chars then preview else preview_loop (max_chars - 1) preview
