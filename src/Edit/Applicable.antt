-- ===== src/Edit/Applicable.antt =====
-- The edits that `prepare_instruction_sequence` of edit_file.rs lets through, when they are run.
use cloud_agent.Base.{
  ℕ, ◌<◌, ◌≡◌, refl, ap, sym, subst, ◌∙◌, Bool, true, false, ◌&&◌, not, List, [], ◌∷◌, length,
  arith, ltb, ◌==◌, if◌then◌else◌, if_false, Bool-cases, inl, inr, Result, ok, err, value_before,
}
use cloud_agent.Base.Text.{Text, text_eq, is_empty}
use cloud_agent.Codec.{LineEnding, DecodedTextFile}
use cloud_agent.Edit.Strings.{match_indices, replace_first, replace_every}
use cloud_agent.Edit.{
  EditInstruction, PreparedInstruction, EditError, no_change, empty_old_string, introduced_earlier,
  not_found, too_many_matches, repeated_match_line_hint, was_introduced, check_edit, edited,
  prepared_for, prepare_from, prepare_instruction_sequence,
}
use cloud_agent.Edit.Replaced.{
  IsSplit, replace_first-IsSplit, matches_from, Replaced, replace_from-Replaced,
}

-- How an edit applies to the text that it meets.
pub data IsExact (text : Text) (edit : PreparedInstruction) : Type 0 where
  -- It fills an empty file.
  creates :
      is_empty edit.old_string ≡ true
      → is_empty text ≡ true
      → edited text edit ≡ edit.new_string
      → IsExact text edit
  -- Its old text occurs once, and only that changes.
  replaces :
      length (match_indices edit.old_string text) ≡ 1
      → IsSplit edit.old_string edit.new_string text (edited text edit)
      → IsExact text edit
  -- It replaces every occurrence, of which there is one at least.
  replaces_all :
      (count : ℕ)
      → edit.replace_all ≡ true
      → 0 < count
      → Replaced edit.old_string edit.new_string count text (edited text edit)
      → IsExact text edit

abbrev pub IsApplicable : Text → List PreparedInstruction → Type 0
IsApplicable text [] = Unit
IsApplicable text (edit ∷ edits) =
    IsExact text edit
    × (text_eq (edited text edit) text ≡ false)
    × IsApplicable (edited text edit) edits

abbrev passed : Result EditError (Unit {0})
passed = ok tt

guard-ok : (b : Bool) (e : EditError) → (if b then ok tt else err e) ≡ passed → b ≡ true
guard-ok true e h = refl
guard-ok false e h = cc

guards-ok :
    (a b c : Bool) (e f g : EditError)
    → (if a then err e else if b then err f else if c then err g else ok tt) ≡ passed
    → (b ≡ false) × (c ≡ false)
guards-ok true b c e f g h = cc
guards-ok false true c e f g h = cc
guards-ok false false true e f g h = cc
guards-ok false false false e f g h = (refl, refl)

check_edit-empty :
    (text : Text) (applied : List Text) (old : Text) (all : Bool)
    → is_empty old ≡ true
    → check_edit text applied old all ≡ ok tt
    → is_empty text ≡ true
unfolding check_edit
check_edit-empty text applied old all e h = guard-ok (is_empty text) empty_old_string (rw e at h)

check_edit-matches :
    (text : Text) (applied : List Text) (old : Text) (all : Bool)
    → is_empty old ≡ false
    → check_edit text applied old all ≡ ok tt
    → ((length (match_indices old text) == 0) ≡ false)
      × ((ltb 1 (length (match_indices old text)) && not all) ≡ false)
unfolding check_edit
check_edit-matches text applied old all e h =
    let n = length (match_indices old text) in
    let hint = too_many_matches n (repeated_match_line_hint text old) in
    let tested =
      if was_introduced applied old
      then err introduced_earlier
      else if n == 0
      then err not_found
      else if ltb 1 n && not all
      then err hint
      else ok tt in
    let first = if is_empty text then ok tt else err empty_old_string in
    guards-ok (was_introduced applied old) (n == 0) (ltb 1 n && not all) introduced_earlier
      not_found hint (sym (if_false (is_empty old) first tested e) ∙ h)

edited-first :
    (text : Text) (edit : PreparedInstruction)
    → is_empty edit.old_string ≡ false
    → edit.replace_all ≡ false
    → edited text edit ≡ replace_first edit.old_string edit.new_string text
unfolding edited
edited-first text edit e a =
    let every = replace_every edit.old_string edit.new_string text in
    let first = replace_first edit.old_string edit.new_string text in
    if_false (is_empty edit.old_string) edit.new_string (if edit.replace_all then every else first)
      e
    ∙ if_false edit.replace_all every first a

only_one :
    (n : ℕ) (all : Bool) → (n == 0) ≡ false → (ltb 1 n && not all) ≡ false → all ≡ false → n ≡ 1
only_one n all h k a = ground (arith, h, k, a)

some_match : (n : ℕ) → (n == 0) ≡ false → 0 < n
some_match n h = ground (arith, h)

edited-empty :
    (text : Text) (edit : PreparedInstruction)
    → is_empty edit.old_string ≡ true
    → edited text edit ≡ edit.new_string
unfolding edited
edited-empty text edit e = rw (edited, e)

edited-every :
    (text : Text) (edit : PreparedInstruction)
    → is_empty edit.old_string ≡ false
    → edit.replace_all ≡ true
    → edited text edit ≡ replace_every edit.old_string edit.new_string text
unfolding edited
edited-every text edit e a =
    let every = replace_every edit.old_string edit.new_string text in
    let first = replace_first edit.old_string edit.new_string text in
    if_false (is_empty edit.old_string) edit.new_string (if edit.replace_all then every else first)
      e
    ∙ ap (λ b. if b then every else first) a

replace_every-Replaced :
    (old new text : Text)
    → is_empty old ≡ false
    → Replaced old new (length (match_indices old text)) text (replace_every old new text)
unfolding replace_every match_indices is_empty
replace_every-Replaced [] new text h = cc
replace_every-Replaced (p ∷ old) new text h = replace_from-Replaced p old new 0 0 text (omega arith)

check_edit-IsExact :
    (text : Text) (applied : List Text) (edit : PreparedInstruction)
    → check_edit text applied edit.old_string edit.replace_all ≡ ok tt
    → IsExact text edit
check_edit-IsExact text applied edit h = elim (Bool-cases (is_empty edit.old_string)) [
  | inl e ↦
      creates e (check_edit-empty text applied edit.old_string edit.replace_all e h)
        (edited-empty text edit e)
  | inr e ↦
      let (found, few) = check_edit-matches text applied edit.old_string edit.replace_all e h in
      elim (Bool-cases edit.replace_all) [
        | inl a ↦
            let count = length (match_indices edit.old_string text) in
            replaces_all count a (some_match count found) (
              subst (Replaced edit.old_string edit.new_string count text)
                (sym (edited-every text edit e a))
                (replace_every-Replaced edit.old_string edit.new_string text e))
        | inr a ↦
            let split =
              replace_first-IsSplit edit.old_string edit.new_string text 0 e
                (matches_from edit.old_string text found) in
            replaces
              (only_one (length (match_indices edit.old_string text)) edit.replace_all found few a)
              (subst (IsSplit edit.old_string edit.new_string text)
                (sym (edited-first text edit e a)) split)
      ]
]

no_change-ok : (b : Bool) (u : Unit {0}) → (if b then err no_change else ok tt) ≡ ok u → b ≡ false
no_change-ok true u h = cc
no_change-ok false u h = refl

module _ (is_alphabetic : ℕ → Bool) where
  prepare_from-IsApplicable :
      (ending : LineEnding) (text : Text) (applied : List Text) (edits : List EditInstruction)
      (prepared : List PreparedInstruction)
      → prepare_from is_alphabetic ending text applied edits ≡ ok prepared
      → IsApplicable text prepared
  unfolding prepare_from
  prepare_from-IsApplicable ending text applied [] prepared h =
      let same : [] ≡ prepared = cc h in subst (IsApplicable text) same tt
  prepare_from-IsApplicable ending text applied (edit ∷ edits) prepared h =
      let p = prepared_for is_alphabetic edit text ending in
      let next = edited text p in
      let (u, checked, h₁) =
        value_before (check_edit text applied p.old_string edit.replace_all) _ h in
      let (v, changed, h₂) =
        value_before (if text_eq next text then err no_change else ok tt) _ h₁ in
      let (rest, e, h₃) =
        value_before (prepare_from is_alphabetic ending next (p.new_string ∷ applied) edits) _ h₂ in
      let same : p ∷ rest ≡ prepared = cc h₃ in
      subst (IsApplicable text) same (
        check_edit-IsExact text applied p checked,
        no_change-ok (text_eq next text) v changed,
        prepare_from-IsApplicable ending next (p.new_string ∷ applied) edits rest e,
      )

  -- Edits that are prepared for a file apply to it one after the other as `apply_edit` runs them:
  -- each one changes the text that it meets, and it either has no old text and turns an empty text
  -- into its new text; or its old text has one match, and an occurrence of it is replaced and
  -- nothing else; or, marked to replace all, it replaces from the left every match, of which there
  -- is one at least, and nothing else. An occurrence that overlaps the match before it is no match.
  pub prepare_instruction_sequence-IsApplicable :
      (decoded : DecodedTextFile) (edits : List EditInstruction)
      (prepared : List PreparedInstruction)
      → prepare_instruction_sequence is_alphabetic decoded edits ≡ ok prepared
      → IsApplicable decoded.text prepared
  unfolding prepare_instruction_sequence
  prepare_instruction_sequence-IsApplicable decoded edits =
      prepare_from-IsApplicable decoded.line_ending decoded.text [] edits
