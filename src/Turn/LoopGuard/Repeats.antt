-- ===== src/Turn/LoopGuard/Repeats.antt =====
-- The loop guard of turn/loop_guard.rs over a sequence of roundtrips.
use cloud_agent.Base.{
  ℕ, suc, ◌<◌, ◌≤◌, ◌≡◌, ◌↔◌, refl, ◌∙◌, sym, ap, true, Option, none, some, List, [], ◌∷◌, ◌++◌,
  map, any, leb, arith, length, Bool-cases, inl, inr, holds_iff, if◌then◌else◌, if-holds, ◌==◌,
}
use cloud_agent.Base.Text.{Text, codes, is_empty}
use cloud_agent.Data.Tool.{ToolCall, ToolSpec, StructuredToolResult}
use cloud_agent.Data.Response.{ResponseItem}
use cloud_agent.Turn.LoopGuard.{
  RoundtripSignature, LoopGuard, LoopAbort, new_guard, reset, Texts-discrete, signature_eq, is_last,
  counted, abort_of, record_signature, split_once, add_result, signed, find_latest_result,
  spec_is_mutating, call_signature, results_for, build_signature, record_roundtrip,
}

signature_eq_iff : (s t : RoundtripSignature) → (signature_eq s t ≡ true) ↔ (s ≡ t)
unfolding signature_eq
signature_eq_iff s t = (
  λ h. ground (
    arith,
    h,
    holds_iff (Texts-discrete s.tool_calls t.tool_calls),
    holds_iff (Texts-discrete s.tool_results t.tool_results),
  ),
  λ e. ground (
    arith,
    e,
    holds_iff (Texts-discrete s.tool_calls t.tool_calls),
    holds_iff (Texts-discrete s.tool_results t.tool_results),
  ),
)

-- The guard after the roundtrips of a list, the newest first.
abbrev pub after : List (Option RoundtripSignature) → LoopGuard
after [] = new_guard
after (x ∷ xs) = (record_signature x (after xs)).1

-- How many roundtrips at the front of a list have the signature.
abbrev leading : RoundtripSignature → List (Option RoundtripSignature) → ℕ
leading s [] = 0
leading s (none ∷ xs) = 0
leading s (some t ∷ xs) = let rest = leading s xs in if signature_eq t s then suc rest else 0

-- How many times the newest roundtrip has been made in a row.
abbrev pub streak : List (Option RoundtripSignature) → ℕ
streak [] = 0
streak (none ∷ xs) = 0
streak (some s ∷ xs) = suc (leading s xs)

abbrev pub newest : List (Option RoundtripSignature) → Option RoundtripSignature
newest [] = none
newest (x ∷ xs) = x

leading-le :
    (s : RoundtripSignature) (xs : List (Option RoundtripSignature)) → leading s xs ≤ length xs
leading-le s [] = omega arith
leading-le s (none ∷ xs) = omega arith
leading-le s (some t ∷ xs) = ground (arith, leading-le s xs)

leading-newest :
    (s : RoundtripSignature) (xs : List (Option RoundtripSignature))
    → leading s xs ≡ (if is_last s (newest xs) then streak xs else 0)
leading-newest s [] = refl
leading-newest s (none ∷ xs) = refl
leading-newest s (some t ∷ xs) = elim (Bool-cases (signature_eq t s)) [
  | inl same ↦ rw (same) (ap (λ u. suc (leading u xs)) (sym ((signature_eq_iff t s).0 same)))
  | inr apart ↦ rw (apart)
]

is_last-some :
    (s : RoundtripSignature) (o : Option RoundtripSignature) → is_last s o ≡ true → o ≡ some s
is_last-some s none h = cc
is_last-some s (some t) h = ap some ((signature_eq_iff t s).0 h)

-- The tests of `leading-newest` at the guard's last signature.
leading-last :
    (s : RoundtripSignature) (xs : List (Option RoundtripSignature)) (o : Option RoundtripSignature)
    → o ≡ newest xs
    → leading s xs ≡ (if is_last s o then streak xs else 0)
leading-last s xs o h = leading-newest s xs ∙ ap (λ o. if is_last s o then streak xs else 0) (sym h)

IsCounting : List (Option RoundtripSignature) → LoopGuard → Type 0
IsCounting xs g =
    (g.last_signature ≡ newest xs) × (g.repeated_count ≡ streak xs) × (g.threshold ≡ 3)

counted-IsCounting :
    (s : RoundtripSignature) (xs : List (Option RoundtripSignature)) (g : LoopGuard)
    → length xs < 18446744073709551615
    → IsCounting xs g
    → IsCounting (some s ∷ xs) (counted s g)
unfolding IsCounting
counted-IsCounting s xs g h (last, count, three) = elim (Bool-cases (is_last s g.last_signature)) [
  | inl same ↦
      let lead : leading s xs ≡ streak xs =
        leading-last s xs g.last_signature last ∙ ap (λ b. if b then streak xs else 0) same in
      rw (same) (
        is_last-some s g.last_signature same,
        ground (arith, leading-le s xs, lead, count, h),
        three,
      )
  | inr apart ↦
      let lead : leading s xs ≡ 0 =
        leading-last s xs g.last_signature last ∙ ap (λ b. if b then streak xs else 0) apart in
      rw (apart) (refl, ap suc (sym lead), three)
]

after-IsCounting :
    (xs : List (Option RoundtripSignature))
    → length xs < 18446744073709551616
    → IsCounting xs (after xs)
unfolding IsCounting record_signature reset
after-IsCounting [] h = (refl, refl, refl)
after-IsCounting (none ∷ xs) h = (refl, refl, (after-IsCounting xs (omega arith)).2)
after-IsCounting (some s ∷ xs) h =
    counted-IsCounting s xs (after xs) (omega arith) (after-IsCounting xs (omega arith))

-- From a new guard, and over fewer than 2^64 roundtrips, a roundtrip is aborted just when it is at
-- least the third in a row with the same tool calls and the same results, and the abort tells
-- how many there were. A roundtrip without a signature is never aborted and starts anew.
pub record_signature-streak :
    (x : Option RoundtripSignature) (xs : List (Option RoundtripSignature))
    → length (x ∷ xs) < 18446744073709551616
    → (record_signature x (after xs)).0 ≡ (
        if leb 3 (streak (x ∷ xs))
        then some (record { repeated_count = streak (x ∷ xs) })
        else none)
unfolding record_signature IsCounting
record_signature-streak none xs h = refl
record_signature-streak (some s) xs h =
    let (_, count, three) = after-IsCounting (some s ∷ xs) h in
    abort_eq (counted s (after xs)) (suc (leading s xs)) count three
  where
    abort_eq :
        (g : LoopGuard) (n : ℕ)
        → g.repeated_count ≡ n
        → g.threshold ≡ 3
        → abort_of g ≡ (if leb 3 n then some (record { repeated_count = n }) else none)
    abort_eq g n count three = rw (count, three)

split_once-separated :
    (before behind : Text)
    → (p : Text × Text) × (split_once 58 (before ++ codes ":" ++ behind) ≡ some p)
unfolding split_once
split_once-separated [] behind = (([], behind), refl)
split_once-separated (ch ∷ before) behind =
    let (p, e) = split_once-separated before behind in
    if-holds (λ o. (p : Text × Text) × (o ≡ some p)) (ch == 58)
      (some ([], before ++ codes ":" ++ behind)) _ (_, refl) ((ch ∷ p.0, p.1), rw e)

add_result_total :
    (q : Option Text) (o : Option (List Text))
    → (r : Option (List Text)) × (add_result (some q) (some o) ≡ some r)
add_result_total none o = (none, refl)
add_result_total (some result) none = (none, refl)
add_result_total (some result) (some results) = (some (result ∷ results), refl)

module _ (to_string : StructuredToolResult → Text) where
  results_for_total :
      (history : List ResponseItem) (calls : List ToolCall)
      → (o : Option (List Text)) × (results_for to_string history (map call_signature calls)
          ≡ some o)
  unfolding results_for
  results_for_total history [] = (some [], refl)
  results_for_total history (call ∷ calls) =
      let (p, e) = split_once-separated call.identity.wire_name call.arguments in
      let (o, rest) = results_for_total history calls in
      let found = find_latest_result to_string history p.0 p.1 in
      let (r, here) = add_result_total found o in (r, rw (e, rest) here)

  build_signature_total :
      (calls : List ToolCall) (specs : List ToolSpec) (history : List ResponseItem)
      → (o : Option RoundtripSignature) × (build_signature to_string calls specs history ≡ some o)
  unfolding build_signature
  build_signature_total calls specs history =
      let (o, e) = results_for_total history calls in
      if-holds (λ x. (o : Option RoundtripSignature) × (x ≡ some o)) (is_empty calls) _ _
        (none, refl)
        (if-holds (λ x. (o : Option RoundtripSignature) × (x ≡ some o))
          (any (spec_is_mutating specs) calls) _ _ (none, refl)
          (signed (map call_signature calls) o, rw e))

  -- The `expect` on the separator of a signature never fails: the guard answers for every round of
  -- calls, every history and every state of its own.
  pub record_roundtrip_total :
      (calls : List ToolCall) (specs : List ToolSpec) (history : List ResponseItem) (g : LoopGuard)
      → (r : Option LoopAbort × LoopGuard) × (record_roundtrip to_string calls specs history g
          ≡ some r)
  unfolding record_roundtrip
  record_roundtrip_total calls specs history g =
      let (signature, built) = build_signature_total calls specs history in
      (record_signature signature g, rw built)
