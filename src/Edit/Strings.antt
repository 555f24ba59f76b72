-- ===== src/Edit/Strings.antt =====
-- The functions of Rust's `str` that edit_file.rs finds and replaces texts with.
use cloud_agent.Base.{
  ℕ, zero, suc, ◌-◌, Option, none, some, List, [], ◌∷◌, ◌++◌, length, drop, if◌then◌else◌,
}
use cloud_agent.Base.Text.{Text, starts_with}

-- `skip` characters belong to the match before; `index` characters have been read.
unfoldable pub match_from : ℕ → ℕ → Text → Text → List ℕ
unfolding starts_with
match_from skip index needle [] = if starts_with [] needle then index ∷ [] else []
match_from (suc skip) index needle (c ∷ s) = match_from skip (suc index) needle s
match_from zero index needle (c ∷ s) =
    let here = starts_with (c ∷ s) needle in
    let rest = match_from (if here then length needle - 1 else 0) (suc index) needle s in
    if here then index ∷ rest else rest

-- `match_indices`: the matches that do not overlap, as counts of the characters before them.
unfoldable pub match_indices : Text → Text → List ℕ
unfolding match_from
match_indices needle haystack = match_from 0 0 needle haystack

-- `find`
unfoldable pub find : Text → Text → Option ℕ
unfolding starts_with
find needle [] = if starts_with [] needle then some 0 else none
find needle (c ∷ s) =
    let rest : Option ℕ = elim (find needle s) [ none ↦ none | some index ↦ some (suc index) ] in
    if starts_with (c ∷ s) needle then some 0 else rest

-- `replacen(old, new, 1)` of a nonempty text
unfoldable pub replace_first : Text → Text → Text → Text
unfolding starts_with
replace_first old new [] = []
replace_first old new (c ∷ s) =
    let rest = replace_first old new s in
    if starts_with (c ∷ s) old then new ++ drop (length old) (c ∷ s) else c ∷ rest

-- `skip` characters of the match before are left out.
unfoldable pub replace_from : ℕ → Text → Text → Text → Text
unfolding starts_with
replace_from skip old new [] = []
replace_from (suc skip) old new (c ∷ s) = replace_from skip old new s
replace_from zero old new (c ∷ s) =
    let here = starts_with (c ∷ s) old in
    let rest = replace_from (if here then length old - 1 else 0) old new s in
    if here then new ++ rest else c ∷ rest

-- `replace` of a nonempty text
unfoldable pub replace_every : Text → Text → Text → Text
unfolding replace_from
replace_every old new text = replace_from 0 old new text
