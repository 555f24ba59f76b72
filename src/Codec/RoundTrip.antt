-- ===== src/Codec/RoundTrip.antt =====
-- What text_codec.rs decodes from the bytes that it encodes.
use cloud_agent.Base.{
  ℕ, ◌+◌, ◌*◌, ◌/◌, ◌%◌, ◌<◌, ◌≡◌, ◌∙◌, refl, Bool, true, false, none, some, List, [], ◌∷◌, ◌++◌,
  ◌==◌, ltb, arith, All, ok, Bool-cases, inl, inr,
}
use cloud_agent.Base.Text.{Text, starts_with}
use cloud_agent.Base.Lines.{strip_prefix}
use cloud_agent.Base.Utf.{is_scalar, utf8_bytes, as_bytes, encode_utf16}
use cloud_agent.Base.Utf.Decoded.{IsScalars, from_utf8-as_bytes, from_utf16-encode_utf16, All-units}
use cloud_agent.Codec.{
  TextEncoding, LineEnding, utf8, utf8_bom, utf16_le_bom, utf16_be_bom, DecodedTextFile,
  detect_line_ending, normalize_from, normalize_line_endings, units, unit_bytes, decode_utf16_bytes,
  encode_utf16_with_bom, encode_text_file, decoded_as, utf8_text, decode_text_file,
}

-- The first bytes of the text are read as a byte order mark.
abbrev pub looks_marked : TextEncoding → Text → Bool
unfolding starts_with
looks_marked utf8 text = starts_with text (0xFEFF ∷ [])
looks_marked encoding text = false

units-unit_bytes :
    (le : Bool) (us : List ℕ) → All (λ u. u < 0x10000) us → units le (unit_bytes le us) ≡ some us
unfolding units unit_bytes
units-unit_bytes le [] h = refl
units-unit_bytes true (u ∷ us) h =
    let value : u % 256 + u / 256 * 256 ≡ u = omega arith in
    rw (units-unit_bytes true us h.1, value)
units-unit_bytes false (u ∷ us) h =
    let value : u / 256 * 256 + u % 256 ≡ u = omega arith in
    rw (units-unit_bytes false us h.1, value)

decode_utf16_bytes-encoded :
    (le : Bool) (text : Text)
    → IsScalars text
    → decode_utf16_bytes (unit_bytes le (encode_utf16 text)) le ≡ ok text
unfolding decode_utf16_bytes
decode_utf16_bytes-encoded le text h = rw (
  decode_utf16_bytes,
  units-unit_bytes le (encode_utf16 text) (All-units text h),
  from_utf16-encode_utf16 text h,
)

no_mark : (p b : ℕ) (ps bs : List ℕ) → (b == p) ≡ false → strip_prefix (p ∷ ps) (b ∷ bs) ≡ none
unfolding strip_prefix
no_mark p b ps bs h = rw h

-- The first byte of a character starts no UTF-16 mark.
no_utf16_mark :
    (p c : ℕ) (ps : List ℕ) (s : Text)
    → 0xFD < p
    → is_scalar c ≡ true
    → strip_prefix (p ∷ ps) (utf8_bytes c ++ as_bytes s) ≡ none
unfolding utf8_bytes is_scalar
no_utf16_mark p c ps s hp hc = elim (Bool-cases (ltb c 0x80)) [
  | inl e₁ ↦ rw e₁ (no_mark p c ps _ (ground (arith, e₁, hp)))
  | inr e₁ ↦ elim (Bool-cases (ltb c 0x800)) [
    | inl e₂ ↦ rw (e₁, e₂) (no_mark p (0xC0 + c / 64) ps _ (ground (arith, e₂, hp)))
    | inr e₂ ↦ elim (Bool-cases (ltb c 0x10000)) [
      | inl e₃ ↦ rw (e₁, e₂, e₃) (no_mark p (0xE0 + c / 4096) ps _ (ground (arith, e₃, hp)))
      | inr e₃ ↦
          let top : c < 0x110000 = ground (arith, hc) in
          rw (e₁, e₂, e₃) (no_mark p (0xF0 + c / 262144) ps _ (ground (arith, top, hp)))
    ]
  ]
]

three_bytes_mark :
    (c : ℕ) (rest : List ℕ)
    → (c == 0xFEFF) ≡ false
    → strip_prefix
        (0xEF ∷ 0xBB ∷ 0xBF ∷ [])
        ((0xE0 + c / 4096) ∷ (0x80 + c / 64 % 64) ∷ (0x80 + c % 64) ∷ rest)
      ≡ none
unfolding strip_prefix
three_bytes_mark c rest h = ground (arith, h)

no_utf8_mark :
    (c : ℕ) (s : Text)
    → is_scalar c ≡ true
    → (c == 0xFEFF) ≡ false
    → strip_prefix (0xEF ∷ 0xBB ∷ 0xBF ∷ []) (utf8_bytes c ++ as_bytes s) ≡ none
unfolding utf8_bytes is_scalar
no_utf8_mark c s hc h = elim (Bool-cases (ltb c 0x80)) [
  | inl e₁ ↦ rw e₁ (no_mark 0xEF c (0xBB ∷ 0xBF ∷ []) _ (ground (arith, e₁)))
  | inr e₁ ↦ elim (Bool-cases (ltb c 0x800)) [
    | inl e₂ ↦ rw (e₁, e₂) (no_mark 0xEF (0xC0 + c / 64) (0xBB ∷ 0xBF ∷ []) _ (ground (arith, e₂)))
    | inr e₂ ↦ elim (Bool-cases (ltb c 0x10000)) [
      | inl e₃ ↦ rw (e₁, e₂, e₃) (three_bytes_mark c (as_bytes s) h)
      | inr e₃ ↦
          rw (e₁, e₂, e₃)
            (no_mark 0xEF (0xF0 + c / 262144) (0xBB ∷ 0xBF ∷ []) _ (ground (arith, e₃)))
    ]
  ]
]

normalize_line_endings_stable :
    (text : Text)
    → normalize_from false text ≡ some text
    → normalize_line_endings text ≡ ok (text, detect_line_ending text)
unfolding normalize_line_endings
normalize_line_endings_stable text h = rw (normalize_line_endings, h)

decoded_as-ok :
    (encoding : TextEncoding) (text : Text)
    → normalize_from false text ≡ some text
    → decoded_as encoding (ok text)
      ≡ ok (record { text = text; encoding = encoding; line_ending = detect_line_ending text })
unfolding decoded_as
decoded_as-ok encoding text h = rw (decoded_as, normalize_line_endings_stable text h)

utf8_text-as_bytes :
    (bom : Bool) (text : Text) → IsScalars text → utf8_text bom (as_bytes text) ≡ ok text
unfolding utf8_text
utf8_text-as_bytes bom text h = rw (utf8_text, from_utf8-as_bytes text h)

decode_unmarked :
    (text : Text)
    → IsScalars text
    → starts_with text (0xFEFF ∷ []) ≡ false
    → decode_text_file (as_bytes text) ≡ decoded_as utf8 (utf8_text false (as_bytes text))
unfolding decode_text_file starts_with as_bytes
decode_unmarked [] hs h = refl
decode_unmarked (c ∷ s) (hc, hs) h = rw (
  decode_text_file,
  no_utf8_mark c s hc (ground (arith, h)),
  no_utf16_mark 0xFF c (0xFE ∷ []) s (omega arith) hc,
  no_utf16_mark 0xFE c (0xFF ∷ []) s (omega arith) hc,
)

abbrev file : Text → TextEncoding → LineEnding → DecodedTextFile
file text encoding line_ending = record {
  text = text;
  encoding = encoding;
  line_ending = line_ending;
}

decode_encoded :
    (encoding : TextEncoding) (old text : Text) (line_ending : LineEnding)
    → IsScalars text
    → normalize_from false text ≡ some text
    → looks_marked encoding text ≡ false
    → decode_text_file (encode_text_file (file old encoding line_ending) text)
      ≡ ok (file text encoding (detect_line_ending text))
unfolding decode_text_file encode_text_file encode_utf16_with_bom strip_prefix
decode_encoded utf8 old text le hs hn hm =
    decode_unmarked text hs hm ∙ rw (utf8_text-as_bytes false text hs) (decoded_as-ok utf8 text hn)
decode_encoded utf8_bom old text le hs hn hm =
    rw (utf8_text-as_bytes true text hs) (decoded_as-ok utf8_bom text hn)
decode_encoded utf16_le_bom old text le hs hn hm =
    rw (decode_utf16_bytes-encoded true text hs) (decoded_as-ok utf16_le_bom text hn)
decode_encoded utf16_be_bom old text le hs hn hm =
    rw (decode_utf16_bytes-encoded false text hs) (decoded_as-ok utf16_be_bom text hn)

-- In each of the four encodings: a text of Unicode scalar values with normalized line endings that
-- is encoded decodes to itself, in the same encoding and with the line ending it shows. In UTF-8
-- without a byte order mark the text must not start with that mark.
pub decode_text_file-encode :
    (decoded : DecodedTextFile) (text : Text)
    → IsScalars text
    → normalize_from false text ≡ some text
    → looks_marked decoded.encoding text ≡ false
    → decode_text_file (encode_text_file decoded text)
      ≡ ok (record {
        text = text;
        encoding = decoded.encoding;
        line_ending = detect_line_ending text;
      })
decode_text_file-encode decoded text =
    decode_encoded decoded.encoding decoded.text text decoded.line_ending
