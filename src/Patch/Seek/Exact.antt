-- ===== src/Patch/Seek/Exact.antt =====
-- `seek_sequence` of apply_patch.rs where the lines stand in the file as they are.
use cloud_agent.Base.{
  ℕ, zero, suc, ◌+◌, ◌-◌, ◌≤◌, ◌<◌, ◌≡◌, refl, ◌∙◌, sym, ap, Bool, true, false, some, List, [], ◌∷◌,
  ◌++◌, any, range, length, length-append, take, drop, ltb, le→leb, min, arith,
}
use cloud_agent.Base.Text.{Text, is_empty, text_eq_refl}
use cloud_agent.Patch.Seek.{
  lines_match, lines_match_exact, matchers, first_from, first_match, search_start, seek_sequence,
}

first_from-hit :
    (p : ℕ → Bool) (from k count : ℕ)
    → any p (range from k) ≡ false
    → p (from + k) ≡ true
    → k < count
    → first_from p from count ≡ some (from + k)
unfolding first_from
first_from-hit p from k zero before hit h = absurd (omega (arith, h))
first_from-hit p from zero (suc count) before hit h =
    let same : from + 0 ≡ from = omega arith in rw (ap p (sym same) ∙ hit) (ap some (sym same))
first_from-hit p from (suc k) (suc count) before hit h =
    let same : suc from + k ≡ from + suc k = omega arith in
    let miss : p from ≡ false = ground (arith, before) in
    rw miss (
      first_from-hit p (suc from) k count (ground (arith, before)) (ap p same ∙ hit)
        (omega (arith, h))
      ∙ ap some same)

first_from_zero :
    (p : ℕ → Bool) (i count : ℕ)
    → any p (range 0 i) ≡ false
    → p i ≡ true
    → i < count
    → first_from p 0 count ≡ some i
first_from_zero p i count before hit h =
    let same : 0 + i ≡ i = omega arith in
    first_from-hit p 0 i count before (ap p same ∙ hit) h ∙ ap some same

first_match-exact :
    (file pattern : List Text) (from count i : ℕ)
    → first_from (lines_match_exact file pattern) from count ≡ some i
    → first_match matchers file pattern from count ≡ some i
unfolding first_match matchers
first_match-exact file pattern from count i h = rw h

lines_match-prefix : (old after : List Text) → lines_match (λ line. line) (old ++ after) old ≡ true
unfolding lines_match
lines_match-prefix [] after = refl
lines_match-prefix (line ∷ old) after = rw (text_eq_refl line, lines_match-prefix old after)

pub drop-length : (before rest : List Text) → drop (length before) (before ++ rest) ≡ rest
drop-length [] rest = refl
drop-length (line ∷ before) rest = drop-length before rest

pub take-length : (before rest : List Text) → take (length before) (before ++ rest) ≡ before
take-length [] rest = refl
take-length (line ∷ before) rest = ap (◌∷◌ line) (take-length before rest)

lines_match_exact-at :
    (before old after : List Text)
    → lines_match_exact (before ++ (old ++ after)) old (length before) ≡ true
unfolding lines_match_exact
lines_match_exact-at before old after =
    let fits : length before + length old ≤ length (before ++ (old ++ after)) =
      omega (arith, length-append before (old ++ after), length-append old after) in
    rw (le→leb _ _ fits, drop-length before (old ++ after), lines_match-prefix old after)

pub seek_sequence-exact :
    (before old after : List Text)
    → is_empty old ≡ false
    → any (lines_match_exact (before ++ (old ++ after)) old) (range 0 (length before)) ≡ false
    → seek_sequence (before ++ (old ++ after)) old 0 false ≡ some (length before)
unfolding seek_sequence first_match search_start
seek_sequence-exact before old after some_line first =
    let file = before ++ (old ++ after) in
    let long : ltb (length file) (length old) ≡ false =
      ground (arith, length-append before (old ++ after), length-append old after) in
    let from : min 0 (length file - length old) ≡ 0 = omega arith in
    let count = suc (length file - length old - 0) in
    let below : length before < count =
      omega (arith, length-append before (old ++ after), length-append old after) in
    let found =
      first_from_zero (lines_match_exact file old) (length before) count first
        (lines_match_exact-at before old after) below in
    rw (some_line, long, from) (first_match-exact file old 0 count (length before) found)
