-- ===== src/Comments/Classify.antt =====
-- The blocks of a hunk, line by line.
use gitna.Prelude.{
  All, ◌⊎◌, ◌-◌, ℕ, zero, suc, ◌+◌, ◌≤◌, ◌<◌, ◌≡◌, refl, some, List, [], ◌∷◌, ◌++◌, arith,
  get_elem?,
}
use gitna.Comments.{
  AnnotationSide, HunkContent, CommentLineType, DiffHunk, block_length, block_type, classify_blocks,
  classify_comment_line_type, hunk_start, hunk_count, change,
}

replicate : ℕ → CommentLineType → List CommentLineType
replicate zero t = []
replicate (suc n) t = t ∷ replicate n t

-- The types of the lines of the blocks on one side, one for each line.
unfoldable pub line_types : AnnotationSide → List HunkContent → List CommentLineType
unfolding replicate
line_types side [] = []
line_types side (b ∷ bs) = replicate (block_length side b) (block_type b) ++ line_types side bs

get_elem?-replicate :
    (n i : ℕ) (t : CommentLineType) (ts : List CommentLineType)
    → i < n
    → get_elem? (replicate n t ++ ts) i ≡ some t
unfolding replicate
get_elem?-replicate zero i t ts h = absurd (omega arith)
get_elem?-replicate (suc n) zero t ts h = refl
get_elem?-replicate (suc n) (suc i) t ts h = get_elem?-replicate n i t ts (omega arith)

get_elem?-beyond :
    (n i k : ℕ) (t : CommentLineType) (ts : List CommentLineType)
    → i ≡ n + k
    → get_elem? (replicate n t ++ ts) i ≡ get_elem? ts k
unfolding replicate
get_elem?-beyond zero i k t ts h = ground arith
get_elem?-beyond (suc n) zero k t ts h = absurd (omega arith)
get_elem?-beyond (suc n) (suc i) k t ts h = get_elem?-beyond n i k t ts (omega arith)

-- The walk over the blocks finds the type that stands at the line in the list of all lines.
pub classify_blocks-line_types :
    (side : AnnotationSide) (current i line : ℕ) (bs : List HunkContent)
    → line ≡ current + i
    → classify_blocks side line current bs ≡ get_elem? (line_types side bs) i
unfolding classify_blocks line_types
classify_blocks-line_types side current i line [] e = refl
classify_blocks-line_types side current i line (b ∷ bs) e =
    let len = block_length side b in
    ground (
      arith,
      get_elem?-replicate len i (block_type b) (line_types side bs),
      get_elem?-beyond len i (i - len) (block_type b) (line_types side bs),
      classify_blocks-line_types side (current + len) (i - len) line bs,
    )

-- A line within the count of the first hunk, at which the hunk's blocks have a line of type `t`, is
-- classified as `t`.
pub classify_comment_line_type_first :
    (h : DiffHunk) (hs : List DiffHunk) (side : AnnotationSide) (i : ℕ) (t : CommentLineType)
    → i < hunk_count side h
    → get_elem? (line_types side h.hunk_content) i ≡ some t
    → classify_comment_line_type (h ∷ hs) side (hunk_start side h + i) ≡ t
unfolding classify_comment_line_type
classify_comment_line_type_first h hs side i t b e = ground (
  arith,
  classify_blocks-line_types side (hunk_start side h) i (hunk_start side h + i) h.hunk_content refl,
)

-- A line outside every hunk is a change.
pub classify_comment_line_type_outside :
    (hs : List DiffHunk) (side : AnnotationSide) (line : ℕ)
    → All (λ h. (line < hunk_start side h) ⊎ (hunk_start side h + hunk_count side h ≤ line)) hs
    → classify_comment_line_type hs side line ≡ change
unfolding classify_comment_line_type
classify_comment_line_type_outside [] side line a = refl
classify_comment_line_type_outside (h ∷ hs) side line a =
    ground (arith, a.0, classify_comment_line_type_outside hs side line a.1)
