-- ===== src/Hunks/Uniqueness.antt =====
-- The splits of a patch into a header and blocks, as a specification of its hunks.
use gitna.Prelude.{
  append_assoc, append-nil, arith, ℕ, false, List, [], ◌∷◌, ◌++◌, refl, ap, ◌∙◌, sym, map, Text,
  split, ◌==◌, All, ◌≡◌, ◌↔◌,
}
use mathlib.Core.Path.{subst}
use gitna.Hunks.{
  hunks_after, HunkPatch, newline, is_range, lines_of, join_lines, split_header, split_hunk_patches,
}
use gitna.Hunks.Splitting.{
  blocks_of, collect_hunks-first, lines-IsSplit, IsSplit, IsLine, Block, IsBlock, all_lines,
  block_patch,
}

IsLine-tail : (c : ℕ) (line : Text) → IsLine (c ∷ line) → ((c == newline) ≡ false) × IsLine line
IsLine-tail c line h = (ground (arith, h), ground (arith, h))

-- A line in front of a text is its first line.
split-line :
    (line s : Text) → IsLine line → split newline (line ++ newline ∷ s) ≡ (line, lines_of s)
unfolding split lines_of
split-line [] s h = refl
split-line (c ∷ line) s h =
    let (other, rest) = IsLine-tail c line h in
    rw other (ap (λ p. (c ∷ p.0, p.1)) (split-line line s rest))

split-last : (line : Text) → IsLine line → split newline line ≡ (line, [])
unfolding split
split-last [] h = refl
split-last (c ∷ line) h =
    let (other, rest) = IsLine-tail c line h in
    rw other (ap (λ p. (c ∷ p.0, p.1)) (split-last line rest))

lines-join :
    (line : Text) (lines : List Text)
    → All IsLine (line ∷ lines)
    → lines_of (join_lines (line ∷ lines)) ≡ line ∷ lines
unfolding join_lines lines_of
lines-join line [] (h, all) = ap (λ p. p.0 ∷ p.1) (split-last line h)
lines-join line (next ∷ lines) (h, all) =
    ap (λ p. p.0 ∷ p.1) (split-line line (join_lines (next ∷ lines)) h)
    ∙ ap (◌∷◌ line) (lines-join next lines all)

split_header-blocks :
    (header : List Text) (blocks : List Block)
    → All (λ line. is_range line ≡ false) header
    → All IsBlock blocks
    → split_header (header ++ all_lines blocks) ≡ (header, all_lines blocks)
unfolding split_header
split_header-blocks [] [] plain h = refl
split_header-blocks [] (b ∷ blocks) plain (h, all) = rw (h.0) refl
split_header-blocks (line ∷ header) blocks (no_range, plain) h =
    rw no_range (ap (λ p. (line ∷ p.0, p.1)) (split_header-blocks header blocks plain h))

-- The lines of blocks fall into those blocks.
blocks-all_lines :
    (range : Text) (below more : List Text) (blocks : List Block)
    → All (λ line. is_range line ≡ false) more
    → All IsBlock blocks
    → blocks_of range below (more ++ all_lines blocks) ≡ (range, below ++ more) ∷ blocks
unfolding blocks_of
blocks-all_lines range below [] [] plain h = ap (λ b. (range, b) ∷ []) (sym (append-nil below))
blocks-all_lines range below [] (b ∷ blocks) plain ((h, bp), all) = rw h (
    ap (λ bs. (range, below) ∷ bs) (blocks-all_lines b.0 [] b.1 blocks bp all)
    ∙ ap (λ l. (range, l) ∷ b ∷ blocks) (sym (append-nil below)))
blocks-all_lines range below (line ∷ more) blocks (no_range, plain) h = rw no_range (
    blocks-all_lines range (below ++ line ∷ []) more blocks plain h
    ∙ ap (λ l. (range, l) ∷ blocks) (append_assoc below (line ∷ []) more))

hunks_after-blocks :
    (header : List Text) (blocks : List Block)
    → All IsBlock blocks
    → hunks_after header (all_lines blocks) ≡ map (block_patch header) blocks
unfolding hunks_after
hunks_after-blocks header [] all = refl
hunks_after-blocks header (b ∷ blocks) (h, all) =
    collect_hunks-first header (b.1 ++ all_lines blocks) b.0 (h.0)
    ∙ ap (map (block_patch header)) (blocks-all_lines b.0 [] b.1 blocks (h.1) all)

lines-of_join :
    (lines : List Text)
    → All IsLine lines
    → split_hunk_patches (join_lines lines)
      ≡ hunks_after (split_header lines).0 (split_header lines).1
unfolding split_hunk_patches lines_of split_header is_range split join_lines hunks_after
lines-of_join [] all = refl
lines-of_join (line ∷ lines) all =
    ap (λ ls. hunks_after (split_header ls).0 (split_header ls).1) (lines-join line lines all)

hunks-of_split :
    (patch : Text) (hunks : List HunkPatch) → IsSplit patch hunks → hunks ≡ split_hunk_patches patch
hunks-of_split patch hunks s =
    let lines = s.header ++ all_lines s.blocks in
    s.are_hunks
    ∙ sym (hunks_after-blocks s.header s.blocks s.are_blocks)
    ∙ ap (λ p. hunks_after p.0 p.1)
        (sym (split_header-blocks s.header s.blocks s.has_no_range s.are_blocks))
    ∙ sym (lines-of_join lines s.are_lines)
    ∙ ap split_hunk_patches (sym s.is_whole)

-- A list of hunks is that of the patch exactly when the patch is lines joined by newlines, first a header
-- without range lines, then blocks that each begin with a range line and have no other, and the hunks are
-- those blocks in their order, each with the header before it as one patch, and with its range line.
pub split_hunk_patches-IsSplit :
    (patch : Text) (hunks : List HunkPatch)
    → IsSplit patch hunks ↔ (hunks ≡ split_hunk_patches patch)
split_hunk_patches-IsSplit patch hunks =
    (hunks-of_split patch hunks, λ same. subst (IsSplit patch) (sym same) (lines-IsSplit patch))
