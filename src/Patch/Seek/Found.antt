-- ===== src/Patch/Seek/Found.antt =====
-- What `seek_sequence` of apply_patch.rs finds, for every pattern that is not empty.
use cloud_agent.Base.{
  ℕ, zero, suc, ◌+◌, ◌-◌, ◌≤◌, ◌<◌, ◌≡◌, refl, ap, sym, subst, ◌∙◌, Bool, true, false, Option, none,
  some, List, [], ◌∷◌, any, range, length, arith, ltb, ltb→lt, Bool-cases, Option-cases, ◌⊎◌, inl,
  inr, All,
}
use cloud_agent.Base.Text.{Text, is_empty}
use cloud_agent.Patch.Seek.{Matcher, matchers, first_from, first_match, search_start, seek_sequence}

-- The index at which the first matcher that matches anywhere in the range first matches.
pub data IsDecided (lines pattern : List Text) (from count i : ℕ) : List Matcher → Type 0 where
  here :
      (m : Matcher) (ms : List Matcher)
      → m lines pattern i ≡ true
      → any (m lines pattern) (range from (i - from)) ≡ false
      → IsDecided lines pattern from count i (m ∷ ms)
  later :
      (m : Matcher) (ms : List Matcher)
      → any (m lines pattern) (range from count) ≡ false
      → IsDecided lines pattern from count i ms
      → IsDecided lines pattern from count i (m ∷ ms)

-- No matcher matches anywhere in the range.
abbrev pub IsAbsent : List Text → List Text → ℕ → ℕ → List Matcher → Type 0
IsAbsent lines pattern from count ms =
    All (λ m. any (m lines pattern) (range from count) ≡ false) ms

abbrev pub count_from : List Text → List Text → ℕ → ℕ
count_from lines pattern from = suc (length lines - length pattern - from)

abbrev pub IsSought : List Text → List Text → ℕ → Bool → Option ℕ → Type 0
IsSought lines pattern start eof (some i) =
    let from = search_start lines pattern start eof in
    (i + length pattern ≤ length lines)
    × (from ≤ i)
    × IsDecided lines pattern from (count_from lines pattern from) i matchers
IsSought lines pattern start eof none =
    let from = search_start lines pattern start eof in
    (length lines < length pattern)
    ⊎ IsAbsent lines pattern from (count_from lines pattern from) matchers

any_before :
    (p : ℕ → Bool) (from i : ℕ)
    → suc from ≤ i
    → p from ≡ false
    → any p (range (suc from) (i - suc from)) ≡ false
    → any p (range from (i - from)) ≡ false
any_before p from i low e rest =
    let one_more : i - from ≡ suc (i - suc from) = omega (arith, low) in rw (one_more, e, rest)

first_from-some :
    (p : ℕ → Bool) (from count i : ℕ)
    → first_from p from count ≡ some i
    → (p i ≡ true) × (from ≤ i) × (i < from + count) × (any p (range from (i - from)) ≡ false)
unfolding first_from
first_from-some p from zero i h = cc
first_from-some p from (suc count) i h = elim (Bool-cases (p from)) [
  | inl e ↦
      let same : from ≡ i = ground (arith, h, e) in
      let empty : i - from ≡ 0 = omega (arith, same) in
      (ap p (sym same) ∙ e, omega (arith, same), omega (arith, same), rw empty)
  | inr e ↦
      let (hit, low, high, rest) = first_from-some p (suc from) count i (ground (arith, h, e)) in
      (hit, omega (arith, low), omega (arith, high), any_before p from i low e rest)
]

first_from-none :
    (p : ℕ → Bool) (from count : ℕ)
    → first_from p from count ≡ none
    → any p (range from count) ≡ false
unfolding first_from
first_from-none p from zero h = refl
first_from-none p from (suc count) h = ground (arith, h, first_from-none p (suc from) count)

first_match-some :
    (ms : List Matcher) (lines pattern : List Text) (from count i : ℕ)
    → first_match ms lines pattern from count ≡ some i
    → (from ≤ i) × (i < from + count) × IsDecided lines pattern from count i ms
unfolding first_match
first_match-some [] lines pattern from count i h = cc
first_match-some (m ∷ ms) lines pattern from count i h =
    elim (Option-cases (first_from (m lines pattern) from count)) [
      | inl e ↦
          let (low, high, rest) = first_match-some ms lines pattern from count i (rw e at h) in
          (low, high, later m ms (first_from-none (m lines pattern) from count e) rest)
      | inr (j, e) ↦
          let (hit, low, high, before) = first_from-some (m lines pattern) from count j e in
          let same : j ≡ i = ground (arith, h, e) in
          subst
            (λ i. (from ≤ i) × (i < from + count) × IsDecided lines pattern from count i (m ∷ ms))
            same (low, high, here m ms hit before)
    ]

first_match-none :
    (ms : List Matcher) (lines pattern : List Text) (from count : ℕ)
    → first_match ms lines pattern from count ≡ none
    → IsAbsent lines pattern from count ms
unfolding first_match
first_match-none [] lines pattern from count h = tt
first_match-none (m ∷ ms) lines pattern from count h =
    elim (Option-cases (first_from (m lines pattern) from count)) [
      | inl e ↦ (
        first_from-none (m lines pattern) from count e,
        first_match-none ms lines pattern from count (rw e at h),
      )
      | inr (j, e) ↦ absurd (ground (arith, h, e))
    ]

first_match-IsSought :
    (lines pattern : List Text) (start : ℕ) (eof : Bool)
    → length pattern ≤ length lines
    → let from = search_start lines pattern start eof in
      IsSought lines pattern start eof
        (first_match matchers lines pattern from (count_from lines pattern from))
unfolding search_start
first_match-IsSought lines pattern start eof fits =
    let from = search_start lines pattern start eof in
    let count = count_from lines pattern from in
    elim (Option-cases (first_match matchers lines pattern from count)) [
      | inl e ↦ rw e (inr (first_match-none matchers lines pattern from count e))
      | inr (i, e) ↦
          let (low, high, decided) = first_match-some matchers lines pattern from count i e in
          rw e (ground (arith, fits, high), low, decided)
    ]

pub seek_sequence-IsSought :
    (lines pattern : List Text) (start : ℕ) (eof : Bool)
    → is_empty pattern ≡ false
    → IsSought lines pattern start eof (seek_sequence lines pattern start eof)
unfolding seek_sequence
seek_sequence-IsSought lines pattern start eof h =
    elim (Bool-cases (ltb (length lines) (length pattern))) [
      | inl short ↦ rw (h, short) (inl (ltb→lt (length lines) (length pattern) short))
      | inr long ↦
          rw (h, long) (first_match-IsSought lines pattern start eof (ground (arith, long)))
    ]
