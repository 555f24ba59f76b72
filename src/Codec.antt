-- ===== src/Codec.antt =====
-- crates/agent-tools/src/impls/text_codec.rs: text files decoded for an edit and encoded after it.
pub mod RoundTrip
use cloud_agent.Base.{
  ℕ, zero, suc, ◌+◌, ◌*◌, ◌/◌, ◌%◌, Bool, true, false, Option, none, some, List, [], ◌∷◌, ◌++◌,
  if◌then◌else◌, ◌==◌, Result, ok, err, ◌>>=◌,
}
use cloud_agent.Base.Text.{Text, codes}
use cloud_agent.Base.Lines.{strip_prefix, contains}
use cloud_agent.Base.Utf.{as_bytes, from_utf8, encode_utf16, utf16_from}

pub data TextEncoding : Type 0 where
  utf8 utf8_bom utf16_le_bom utf16_be_bom : TextEncoding

pub data LineEnding : Type 0 where
  lf cr_lf : LineEnding

unfoldable pub as_str : LineEnding → Text
as_str lf = 10 ∷ []
as_str cr_lf = 13 ∷ 10 ∷ []

pub record DecodedTextFile : Type 0 where
  pub text : Text
  pub encoding : TextEncoding
  pub line_ending : LineEnding

pub data TextDecodeFailure : Type 0 where
  unsupported_encoding invalid_utf8 invalid_utf16 malformed_line_endings : TextDecodeFailure

unfoldable pub render : TextDecodeFailure → Text
render unsupported_encoding =
    codes "[file omitted: unsupported text encoding; safe UTF-8 editing is unavailable]"
render invalid_utf8 = codes "[file omitted: invalid UTF-8 text; safe editing is unavailable]"
render invalid_utf16 = codes "[file omitted: invalid UTF-16 text; safe editing is unavailable]"
render malformed_line_endings =
    codes "[file omitted: malformed line endings; normalize line endings before editing]"

unfoldable pub detect_line_ending : Text → LineEnding
unfolding contains
detect_line_ending text = if contains text (13 ∷ 10 ∷ []) then cr_lf else lf

-- `returns` after a carriage return, whose run must end with a line feed.
unfoldable pub normalize_from : Bool → Text → Option Text
normalize_from false [] = some []
normalize_from true [] = none
normalize_from false (ch ∷ text) =
    let rest = normalize_from (ch == 13) text in
    let more : Option Text = elim rest [ none ↦ none | some s ↦ some (ch ∷ s) ] in
    if ch == 13 then rest else more
normalize_from true (ch ∷ text) =
    let rest = normalize_from (ch == 13) text in
    let more : Option Text = elim rest [ none ↦ none | some s ↦ some (13 ∷ 10 ∷ s) ] in
    if ch == 13 then rest else if ch == 10 then more else none

unfoldable pub normalize_line_endings : Text → Result TextDecodeFailure (Text × LineEnding)
unfolding normalize_from detect_line_ending
normalize_line_endings text = elim (normalize_from false text) [
  | none ↦ err malformed_line_endings
  | some normalized ↦ ok (normalized, detect_line_ending text)
]

-- Two bytes make a unit; `none` for a byte that is left.
unfoldable pub units : Bool → List ℕ → Option (List ℕ)
units little_endian [] = some []
units little_endian (a ∷ []) = none
units little_endian (a ∷ b ∷ bytes) =
    let u = if little_endian then a + b * 256 else a * 256 + b in
    elim (units little_endian bytes) [ none ↦ none | some us ↦ some (u ∷ us) ]

unfoldable pub decode_utf16_bytes : List ℕ → Bool → Result TextDecodeFailure Text
unfolding units utf16_from
decode_utf16_bytes bytes little_endian = elim (units little_endian bytes) [
  | none ↦ err invalid_utf16
  | some us ↦ elim (utf16_from none us) [ none ↦ err invalid_utf16 | some text ↦ ok text ]
]

unfoldable pub unit_bytes : Bool → List ℕ → List ℕ
unit_bytes little_endian [] = []
unit_bytes little_endian (u ∷ us) =
    let rest = unit_bytes little_endian us in
    if little_endian then u % 256 ∷ u / 256 ∷ rest else u / 256 ∷ u % 256 ∷ rest

unfoldable pub encode_utf16_with_bom : Text → Bool → List ℕ
unfolding unit_bytes encode_utf16
encode_utf16_with_bom text little_endian =
    let bytes = unit_bytes little_endian (encode_utf16 text) in
    if little_endian then 0xFF ∷ 0xFE ∷ bytes else 0xFE ∷ 0xFF ∷ bytes

unfoldable pub encode_text_file : DecodedTextFile → Text → List ℕ
unfolding as_bytes encode_utf16_with_bom
encode_text_file decoded text = elim decoded.encoding [
  | utf8 ↦ as_bytes text
  | utf8_bom ↦ 0xEF ∷ 0xBB ∷ 0xBF ∷ as_bytes text
  | utf16_le_bom ↦ encode_utf16_with_bom text true
  | utf16_be_bom ↦ encode_utf16_with_bom text false
]

-- The text of a file whose bytes have been read, with normalized line endings.
unfoldable pub decoded_as :
    TextEncoding → Result TextDecodeFailure Text → Result TextDecodeFailure DecodedTextFile
unfolding normalize_line_endings
decoded_as encoding raw = do
  raw_text ← raw
  (text, line_ending) ← normalize_line_endings raw_text
  let decoded : DecodedTextFile = record {
    text = text;
    encoding = encoding;
    line_ending = line_ending;
  }
  ok decoded

unfoldable pub utf8_text : Bool → List ℕ → Result TextDecodeFailure Text
unfolding from_utf8
utf8_text bom bytes = elim (from_utf8 bytes) [
  | err valid_up_to ↦ err (
      if bom then invalid_utf8 else if valid_up_to == 0 then unsupported_encoding else invalid_utf8)
  | ok text ↦ ok text
]

unfoldable pub decode_text_file : List ℕ → Result TextDecodeFailure DecodedTextFile
unfolding strip_prefix decoded_as utf8_text decode_utf16_bytes
decode_text_file bytes = elim (strip_prefix (0xEF ∷ 0xBB ∷ 0xBF ∷ []) bytes) [
  | some rest ↦ decoded_as utf8_bom (utf8_text true rest)
  | none ↦ elim (strip_prefix (0xFF ∷ 0xFE ∷ []) bytes) [
    | some rest ↦ decoded_as utf16_le_bom (decode_utf16_bytes rest true)
    | none ↦ elim (strip_prefix (0xFE ∷ 0xFF ∷ []) bytes) [
      | some rest ↦ decoded_as utf16_be_bom (decode_utf16_bytes rest false)
      | none ↦ decoded_as utf8 (utf8_text false bytes)
    ]
  ]
]
