-- ===== src/Base/Lines.antt =====
-- The functions of Rust's standard library that read a text by lines, prefixes and suffixes.
pub mod Joined
pub mod Trimmed
use Prim.Native.Nat.{ℕ, zero, suc}
use mathlib.Core.Bool.{Bool, false, ◌&&◌, ◌||◌}
use mathlib.Core.Option.{Option, none, some}
use mathlib.Core.List.{List, [], ◌∷◌, ◌++◌, reverse}
use cloud_agent.Base.Tests.{if◌then◌else◌, ◌==◌}
use cloud_agent.Base.Lists.{length, drop}
use cloud_agent.Base.Text.{Text, starts_with, trim_start}

-- A carriage return at the end of a line belongs to the line break.
unfoldable pub strip_cr : Text → Text
strip_cr [] = []
strip_cr (c ∷ []) = if c == 13 then [] else c ∷ []
strip_cr (c ∷ d ∷ s) = c ∷ strip_cr (d ∷ s)

-- `line` is what has been read of the current line; a last line that is empty is no line.
unfoldable pub lines_from : Text → Text → List Text
unfolding strip_cr
lines_from [] [] = []
lines_from (l ∷ line) [] = (l ∷ line) ∷ []
lines_from line (c ∷ s) =
    let break = strip_cr line ∷ lines_from [] s in
    let more = lines_from (line ++ c ∷ []) s in if c == 10 then break else more

-- `str::lines`
unfoldable pub lines : Text → List Text
unfolding lines_from
lines s = lines_from [] s

-- `replace("\r\n", "\n")`
unfoldable pub replace_crlf : Text → Text
replace_crlf [] = []
replace_crlf (c ∷ []) = c ∷ []
replace_crlf (c ∷ d ∷ s) =
    let rest = replace_crlf (d ∷ s) in if c == 13 && d == 10 then rest else c ∷ rest

-- `ends_with` of one character
unfoldable pub ends_with : ℕ → Text → Bool
ends_with e [] = false
ends_with e (c ∷ []) = c == e
ends_with e (c ∷ d ∷ s) = ends_with e (d ∷ s)

trim_matches : ℕ → Text → Text → Text
unfolding starts_with
trim_matches zero p s = s
trim_matches (suc rounds) p s =
    let rest = trim_matches rounds p (drop (length p) s) in if starts_with s p then rest else s

-- `trim_start_matches` of a nonempty pattern: each match takes characters off.
unfoldable pub trim_start_matches : Text → Text → Text
unfolding trim_matches
trim_start_matches p s = trim_matches (length s) p s

unfoldable pub trim_end : Text → Text
unfolding trim_start
trim_end s = reverse (trim_start (reverse s))

-- `str::strip_prefix`: what follows the prefix.
unfoldable pub strip_prefix : Text → Text → Option Text
strip_prefix [] s = some s
strip_prefix (p ∷ ps) [] = none
strip_prefix (p ∷ ps) (c ∷ s) = let rest = strip_prefix ps s in if c == p then rest else none

-- `str::contains`
unfoldable pub contains : Text → Text → Bool
unfolding starts_with
contains [] p = starts_with [] p
contains (c ∷ s) p = starts_with (c ∷ s) p || contains s p
