-- ===== src/Hunks/Examples.antt =====
-- Patches split into hunks.
use gitna.Prelude.{arith, ◌↔◌, ◌≡◌, map, [], ◌∷◌, ◌++◌, refl, Text, codes, split}
use gitna.Hunks.{
  newline, is_range, join_lines, join_patch, split_header, collect_hunks, lines_of, hunks_after,
  split_hunk_patches,
}
use gitna.Hunks.Splitting.{IsSplit}
use gitna.Hunks.Uniqueness.{split_hunk_patches-IsSplit}

-- A header and two hunks, of which the last does not end with a newline.
abbrev two_hunks : Text
two_hunks =
    codes "--- a"
    ++ newline ∷ codes "@@ -1 @@"
    ++ newline ∷ codes "+x"
    ++ newline ∷ codes "@@ -9 @@"
    ++ newline ∷ codes "+y"

two_hunks-ranges :
    map (λ h. h.range) (split_hunk_patches two_hunks) ≡ codes "@@ -1 @@" ∷ codes "@@ -9 @@" ∷ []
unfolding is_range join_lines join_patch split_header collect_hunks lines_of hunks_after
    split_hunk_patches split
two_hunks-ranges = refl

split_hunk_patches-IsSplit_example :
    IsSplit two_hunks (split_hunk_patches two_hunks)
    ↔ (split_hunk_patches two_hunks ≡ split_hunk_patches two_hunks)
split_hunk_patches-IsSplit_example =
    split_hunk_patches-IsSplit two_hunks (split_hunk_patches two_hunks)

-- No hunks at all are no split of it.
two_hunks-ne_none : IsSplit two_hunks [] → ⊥
unfolding is_range join_lines join_patch split_header collect_hunks lines_of hunks_after
    split_hunk_patches split
two_hunks-ne_none s = ground (arith, (split_hunk_patches-IsSplit two_hunks []).0 s)
