-- ===== src/Hunks/Splitting.antt =====
-- Each hunk becomes one patch with the header, and no line is lost.
use gitna.Prelude.{
  any_of, append_assoc, ◌<◌, arith, length, length, ◌==◌, ltb, ltb, split, split, Bool-cases, All,
  if◌then◌else◌, ◌≡◌, ℕ, true, false, List, [], ◌∷◌, ◌++◌, refl, ap, ◌∙◌, sym, inl, inr, map, Text,
}
use mathlib.Core.Path.{subst}
use gitna.Hunks.{
  hunks_after, split_hunk_patches, lines_of, join_patch, collect_hunks, split_header, join_lines,
  HunkPatch, newline, is_range,
}

-- A hunk: its range line and the lines below it.
abbrev pub Block : Type 0
Block = Text × List Text

abbrev pub block_lines : Block → List Text
block_lines (line, lines) = line ∷ lines

-- The lines of the blocks, one after the other.
abbrev pub all_lines : List Block → List Text
all_lines [] = []
all_lines (b ∷ blocks) = block_lines b ++ all_lines blocks

abbrev pub IsBlock : Block → Type 0
IsBlock b = (is_range b.0 ≡ true) × All (λ line. is_range line ≡ false) b.1

abbrev pub block_patch : List Text → Block → HunkPatch
block_patch header b = record { patch = join_patch (header ++ block_lines b); range = b.0 }

-- A line has no newline in it.
abbrev pub IsLine : Text → Type 0
IsLine line = any_of (λ c. c == newline) line ≡ false

-- The patch is a header without range lines and blocks, and the hunks are those blocks with the header.
pub record IsSplit (patch : Text) (hunks : List HunkPatch) : Type 0 where
  pub header : List Text
  pub blocks : List Block
  pub are_lines : All IsLine (header ++ all_lines blocks)
  pub has_no_range : All (λ line. is_range line ≡ false) header
  pub are_blocks : All IsBlock blocks
  pub is_whole : patch ≡ join_lines (header ++ all_lines blocks)
  pub are_hunks : hunks ≡ map (block_patch header) blocks

join-cons :
    (c : ℕ) (head : Text) (rest : List Text)
    → join_lines ((c ∷ head) ∷ rest) ≡ c ∷ join_lines (head ∷ rest)
unfolding join_lines
join-cons c head [] = refl
join-cons c head (next ∷ rest) = refl

eq-of_test : (a b : ℕ) → (a == b) ≡ true → a ≡ b
eq-of_test a b h = ground arith

join-split : (s : Text) → join_lines (lines_of s) ≡ s
unfolding join_lines lines_of split
join-split [] = refl
join-split (c ∷ s) = elim (Bool-cases (c == newline)) [
  | inl ends ↦ rw ends (cc (eq-of_test c newline ends, join-split s))
  | inr other ↦
      rw other (join-cons c (split newline s).0 (split newline s).1 ∙ ap (◌∷◌ c) (join-split s))
]

lines-AllLines : (s : Text) → All IsLine (lines_of s)
unfolding lines_of split
lines-AllLines [] = (refl, tt)
lines-AllLines (c ∷ s) = elim (Bool-cases (c == newline)) [
  | inl ends ↦ rw ends (refl, lines-AllLines s)
  | inr other ↦ rw other (ground (arith, (lines-AllLines s).0, other), (lines-AllLines s).1)
]

split_header-append : (lines : List Text) → (split_header lines).0 ++ (split_header lines).1 ≡ lines
unfolding split_header
split_header-append [] = refl
split_header-append (line ∷ lines) = elim (Bool-cases (is_range line)) [
  | inl yes_it_is ↦ rw yes_it_is refl
  | inr no_it_is_not ↦ rw no_it_is_not (ap (◌∷◌ line) (split_header-append lines))
]

split_header-plain :
    (lines : List Text) → All (λ line. is_range line ≡ false) (split_header lines).0
unfolding split_header
split_header-plain [] = tt
split_header-plain (line ∷ lines) = elim (Bool-cases (is_range line)) [
  | inl yes_it_is ↦ rw yes_it_is tt
  | inr no_it_is_not ↦ rw no_it_is_not (no_it_is_not, split_header-plain lines)
]

-- The blocks of lines that begin with a range line; the lines before the first one are dropped.
unfoldable pub blocks_of : Text → List Text → List Text → List Block
blocks_of range below [] = (range, below) ∷ []
blocks_of range below (line ∷ lines) =
    if is_range line
    then (range, below) ∷ blocks_of line [] lines
    else blocks_of range (below ++ line ∷ []) lines

length-lt : {A : Type 0} (xs : List A) (y : A) (ys : List A) → length xs < length (xs ++ y ∷ ys)
length-lt [] y ys = omega arith
length-lt (x ∷ xs) y ys = omega (arith, length-lt xs y ys)

ltb-header :
    (header : List Text) (range : Text) (below : List Text)
    → ltb (length header) (length (header ++ range ∷ below)) ≡ true
ltb-header header range below = ground (arith, length-lt header range below)

eq-header :
    (header : List Text) (range : Text) (below : List Text)
    → (length (header ++ range ∷ below) == length header) ≡ false
eq-header header range below = ground (arith, length-lt header range below)

ltb_self : (n : ℕ) → ltb n n ≡ false
ltb_self n = ground arith

eq_self : (n : ℕ) → (n == n) ≡ true
eq_self n = ground arith

-- The loop, in a hunk whose range line is there, makes the blocks.
collect_hunks-blocks :
    (header lines : List Text) (range : Text) (below : List Text) (hunks : List HunkPatch)
    → collect_hunks header lines (header ++ range ∷ below) range hunks
      ≡ hunks ++ map (block_patch header) (blocks_of range below lines)
unfolding collect_hunks blocks_of
collect_hunks-blocks header [] range below hunks = refl
collect_hunks-blocks header (line ∷ lines) range below hunks = elim (Bool-cases (is_range line)) [
  | inl starts ↦ rw starts (
      rw (ltb-header header range below) (
        rw (eq_self (length header)) (
          collect_hunks-blocks header lines line []
            (hunks ++ record { patch = join_patch (header ++ range ∷ below); range = range } ∷ [])
          ∙ append_assoc hunks _ _)))
  | inr goes_on ↦ rw goes_on (
      rw (eq-header header range below) (
        rw (append_assoc header (range ∷ below) (line ∷ []))
          (collect_hunks-blocks header lines range (below ++ line ∷ []) hunks)))
]

-- The blocks hold the lines, in their order.
all_lines-blocks :
    (lines : List Text) (range : Text) (below : List Text)
    → all_lines (blocks_of range below lines) ≡ range ∷ (below ++ lines)
unfolding blocks_of
all_lines-blocks [] range below = refl
all_lines-blocks (line ∷ lines) range below = elim (Bool-cases (is_range line)) [
  | inl starts ↦ rw starts (ap (λ more. range ∷ (below ++ more)) (all_lines-blocks lines line []))
  | inr goes_on ↦ rw goes_on (
      all_lines-blocks lines range (below ++ line ∷ [])
      ∙ ap (◌∷◌ range) (append_assoc below (line ∷ []) lines))
]

All-append : (P : Text → Type 0) (xs ys : List Text) → All P xs → All P ys → All P (xs ++ ys)
All-append P [] ys p q = q
All-append P (x ∷ xs) ys (p, ps) q = (p, All-append P xs ys ps q)

blocks-AllBlocks :
    (lines : List Text) (range : Text) (below : List Text)
    → is_range range ≡ true
    → All (λ line. is_range line ≡ false) below
    → All IsBlock (blocks_of range below lines)
unfolding blocks_of
blocks-AllBlocks [] range below h all = ((h, all), tt)
blocks-AllBlocks (line ∷ lines) range below h all = elim (Bool-cases (is_range line)) [
  | inl starts ↦ rw starts ((h, all), blocks-AllBlocks lines line [] starts tt)
  | inr goes_on ↦ rw goes_on (
      blocks-AllBlocks lines range (below ++ line ∷ []) h
        (All-append (λ l. is_range l ≡ false) below (line ∷ []) all (goes_on, tt)))
]

-- What follows the header is nothing, or begins with a range line.
abbrev StartsHunks : List Text → Type 0
StartsHunks [] = Unit
StartsHunks (line ∷ lines) = is_range line ≡ true

split_header-StartsHunks : (lines : List Text) → StartsHunks (split_header lines).1
unfolding split_header
split_header-StartsHunks [] = tt
split_header-StartsHunks (line ∷ lines) = elim (Bool-cases (is_range line)) [
  | inl yes_it_is ↦ rw yes_it_is yes_it_is
  | inr no_it_is_not ↦ rw no_it_is_not (split_header-StartsHunks lines)
]

-- The first range line opens a hunk without ending one.
pub collect_hunks-first :
    (header lines : List Text) (line : Text)
    → is_range line ≡ true
    → collect_hunks header (line ∷ lines) header line []
      ≡ map (block_patch header) (blocks_of line [] lines)
unfolding collect_hunks
collect_hunks-first header lines line starts = rw starts (
    rw (ltb_self (length header))
      (rw (eq_self (length header)) (collect_hunks-blocks header lines line [] [])))

hunks-IsSplit :
    (patch : Text) (header rest : List Text)
    → All (λ line. is_range line ≡ false) header
    → StartsHunks rest
    → All IsLine (header ++ rest)
    → patch ≡ join_lines (header ++ rest)
    → IsSplit patch (hunks_after header rest)
unfolding hunks_after
hunks-IsSplit patch header [] plain starts lined whole = record {
  header = header;
  blocks = [];
  are_lines = lined;
  has_no_range = plain;
  are_blocks = tt;
  is_whole = whole;
  are_hunks = refl;
}
hunks-IsSplit patch header (line ∷ lines) plain starts lined whole = record {
  header = header;
  blocks = blocks_of line [] lines;
  are_lines =
      subst (λ more. All IsLine (header ++ more)) (sym (all_lines-blocks lines line [])) lined;
  has_no_range = plain;
  are_blocks = blocks-AllBlocks lines line [] starts tt;
  is_whole =
      whole ∙ ap (λ more. join_lines (header ++ more)) (sym (all_lines-blocks lines line []));
  are_hunks = collect_hunks-first header lines line starts;
}

pub lines-IsSplit : (patch : Text) → IsSplit patch (split_hunk_patches patch)
unfolding split_hunk_patches
lines-IsSplit patch =
    hunks-IsSplit patch (split_header (lines_of patch)).0 (split_header (lines_of patch)).1
      (split_header-plain (lines_of patch)) (split_header-StartsHunks (lines_of patch))
      (subst (All IsLine) (sym (split_header-append (lines_of patch))) (lines-AllLines patch))
      (sym (join-split patch) ∙ ap join_lines (sym (split_header-append (lines_of patch))))
