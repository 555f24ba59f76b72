-- ===== src/Witnesses/Edits.antt =====
-- Edits of one file: the theorem at a concrete input, and tests.
use cloud_agent.Base.{ℕ, ◌≡◌, refl, Bool, true, false, ◌&&◌, leb, List, [], ◌∷◌, some, ok}
use cloud_agent.Base.Text.{Text, codes}
use cloud_agent.Codec.{DecodedTextFile, utf8, lf, cr_lf}
use cloud_agent.Edit.Quotes.{find_actual_string_with_normalized_quotes}
use cloud_agent.Edit.{
  EditInstruction, PreparedInstruction, prepare_instruction_sequence, normalize_new_string_for_file,
  updated_text,
}
use cloud_agent.Edit.Render.{render_edit_patch}
use cloud_agent.Edit.Applicable.{IsApplicable, prepare_instruction_sequence-IsApplicable}

abbrev is_ascii_letter : ℕ → Bool
is_ascii_letter c = leb b'a' c && leb c b'z'

-- Curly quotation marks around one word.
abbrev decoded : DecodedTextFile
decoded = record {
  text = 0x201C ∷ b'x' ∷ 0x201D ∷ codes " and y, y";
  encoding = utf8;
  line_ending = lf;
}

abbrev instruction : Text → Text → Bool → EditInstruction
instruction old_string new_string all = record {
  old_string = old_string;
  new_string = new_string;
  replace_all = all;
}

abbrev edits : List EditInstruction
edits =
    instruction (codes "\"x\"") (codes "\"z\"") false
    ∷ instruction (codes "y") (codes "w") true
    ∷ []

abbrev prepared_edit : Text → Text → Bool → PreparedInstruction
prepared_edit old_string new_string all = record {
  old_string = old_string;
  new_string = new_string;
  replace_all = all;
}

abbrev prepared_edits : List PreparedInstruction
prepared_edits =
    prepared_edit (0x201C ∷ b'x' ∷ 0x201D ∷ []) (0x201C ∷ b'z' ∷ 0x201D ∷ []) false
    ∷ prepared_edit (codes "y") (codes "w") true
    ∷ []

prepared_as : prepare_instruction_sequence is_ascii_letter decoded edits ≡ ok prepared_edits
unfolding prepare_instruction_sequence
prepared_as = refl

prepare_instruction_sequence-IsApplicable_example : IsApplicable decoded.text prepared_edits
prepare_instruction_sequence-IsApplicable_example =
    prepare_instruction_sequence-IsApplicable is_ascii_letter decoded edits prepared_edits
      prepared_as

written : updated_text decoded prepared_edits ≡ ok (0x201C ∷ b'z' ∷ 0x201D ∷ codes " and w, w")
unfolding updated_text
written = refl

-- After one character of two bytes, the quoted word is looked for one character too far.
shifted_match :
    find_actual_string_with_normalized_quotes
      (0xE9 ∷ 0x201C ∷ b'x' ∷ 0x201D ∷ b'y' ∷ [])
      (codes "\"x\"")
    ≡ some (b'x' ∷ 0x201D ∷ b'y' ∷ [])
unfolding find_actual_string_with_normalized_quotes
shifted_match = refl

-- A line break that is a carriage return and a line feed already gets a second carriage return.
doubled_return :
    normalize_new_string_for_file is_ascii_letter (codes "a\r\nb") (codes "a") (codes "a") cr_lf
    ≡ codes "a\r\r\nb"
unfolding normalize_new_string_for_file
doubled_return = refl

rendered_patch :
    render_edit_patch (codes "f") (prepared_edit (codes "y\n") (codes "w") false ∷ [])
    ≡ codes "*** Begin Patch\n*** Update File: f\n@@\n-y\n-\n+w\n*** End Patch"
unfolding render_edit_patch
rendered_patch = refl
