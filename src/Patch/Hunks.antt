-- ===== src/Patch/Hunks.antt =====
-- The lines of a hunk in apply_patch.rs: what they replace, and what a new file gets from them.
use cloud_agent.Base.{◌||◌, List, [], ◌∷◌, ◌++◌, if◌then◌else◌, ◌==◌, Result, ok, err, ◌>>=◌}
use cloud_agent.Base.Text.{Text, codes, is_empty, join}
use cloud_agent.Patch.Data.{Hunk, PatchError, unsupported_hunk_line, unsupported_new_file_line}

-- What a line of a hunk adds to the old block and to the new block.
unfoldable pub block_line : Text → Result PatchError (List Text × List Text)
block_line [] = ok ([] ∷ [], [] ∷ [])
block_line (c ∷ rest) =
    if c == b' '
    then ok (rest ∷ [], rest ∷ [])
    else if c == b'-'
    then ok (rest ∷ [], [])
    else if c == b'+'
    then ok ([], rest ∷ [])
    else err (unsupported_hunk_line (c ∷ rest))

unfoldable pub block_lines : List Text → Result PatchError (List Text × List Text)
unfolding block_line
block_lines [] = ok ([], [])
block_lines (line ∷ lines) = do
  (old, new) ← block_line line
  (olds, news) ← block_lines lines
  ok (old ++ olds, new ++ news)

unfoldable pub hunk_blocks : Hunk → Result PatchError (List Text × List Text)
unfolding block_lines
hunk_blocks hunk = block_lines hunk.lines

-- What a line of a hunk adds to a new file.
unfoldable pub new_file_line : Text → Result PatchError (List Text)
new_file_line [] = err (unsupported_new_file_line [])
new_file_line (c ∷ rest) =
    if c == b'+'
    then ok (rest ∷ [])
    else if c == b' ' || c == b'-'
    then ok []
    else err (unsupported_new_file_line (c ∷ rest))

unfoldable pub new_file_lines : List Text → Result PatchError (List Text)
unfolding new_file_line
new_file_lines [] = ok []
new_file_lines (line ∷ lines) = do
  first ← new_file_line line
  rest ← new_file_lines lines
  ok (first ++ rest)

unfoldable pub new_file_hunks : List Hunk → Result PatchError (List Text)
unfolding new_file_lines
new_file_hunks [] = ok []
new_file_hunks (hunk ∷ hunks) = do
  first ← new_file_lines hunk.lines
  rest ← new_file_hunks hunks
  ok (first ++ rest)

unfoldable pub render_hunks_as_new_file : List Hunk → Result PatchError Text
unfolding new_file_hunks join is_empty
render_hunks_as_new_file hunks = do
  lines ← new_file_hunks hunks
  let content = join (codes "\n") lines
  ok (if is_empty content then content else content ++ codes "\n")
