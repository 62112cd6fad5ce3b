-- ===== src/Hunks.antt =====
-- web/src/lib/hunk-patches.ts: splitHunkPatches, which makes one patch of each hunk.
mod Splitting
mod Uniqueness
mod Examples
use gitna.Prelude.{
  ℕ, Bool, true, false, List, [], ◌∷◌, ◌++◌, if◌then◌else◌, ◌==◌, ◌&&◌, ltb, length, Text, codes,
  split, get_last?,
}

pub record HunkPatch : Type 0 where
  pub patch : Text
  pub range : Text

abbrev pub newline : ℕ
newline = 10

-- `line.startsWith('@@')`
unfoldable pub is_range : Text → Bool
is_range [] = false
is_range (c ∷ []) = false
is_range (c ∷ d ∷ line) = c == b'@' && d == b'@'

-- `lines.join('\n')`
unfoldable pub join_lines : List Text → Text
join_lines [] = []
join_lines (line ∷ []) = line
join_lines (line ∷ next ∷ lines) = line ++ newline ∷ join_lines (next ∷ lines)

abbrev pub ends_with_newline : Text → Bool
ends_with_newline [] = false
ends_with_newline (c ∷ []) = c == newline
ends_with_newline (c ∷ d ∷ s) = ends_with_newline (d ∷ s)

unfoldable pub join_patch : List Text → Text
join_patch lines =
    let out = join_lines lines in if ends_with_newline out then out else out ++ newline ∷ []

-- The lines before the first range line, and the others.
unfoldable pub split_header : List Text → List Text × List Text
split_header [] = ([], [])
split_header (line ∷ lines) =
    let (header, rest) = split_header lines in
    if is_range line then ([], line ∷ lines) else (line ∷ header, rest)

-- The loop over the lines from the first range line on.
unfoldable pub collect_hunks :
    List Text → List Text → List Text → Text → List HunkPatch → List HunkPatch
collect_hunks header [] current range hunks =
    hunks ++ record { patch = join_patch current; range = range } ∷ []
collect_hunks header (line ∷ lines) current range hunks =
    let flushes = is_range line && ltb (length header) (length current) in
    let next_hunks =
      if flushes
      then hunks ++ record { patch = join_patch current; range = range } ∷ []
      else hunks in
    let next_current = if flushes then header else current in
    let next_range =
      if length next_current == length header && is_range line then line else range in
    collect_hunks header lines (next_current ++ line ∷ []) next_range next_hunks

-- `patch.split('\n')`
unfoldable pub lines_of : Text → List Text
lines_of patch = let (head, rest) = split newline patch in head ∷ rest

unfoldable pub hunks_after : List Text → List Text → List HunkPatch
hunks_after header [] = []
hunks_after header (line ∷ lines) = collect_hunks header (line ∷ lines) header line []

unfoldable pub split_hunk_patches : Text → List HunkPatch
split_hunk_patches patch =
    let (header, rest) = split_header (lines_of patch) in hunks_after header rest
