-- ===== src/Comments.antt =====
-- web/src/diffshub/lib: the saved comments of the sidebar (insertCommentInLineOrder.ts,
-- upsertSavedCommentSidebarEntry.ts, removeSavedCommentSidebarEntry.ts) and the kind of line that a
-- comment stands on (classifyCommentLineType.ts).
pub mod Order
pub mod Sections
pub mod Classify
mod Examples
use gitna.Prelude.{
  ℕ, zero, suc, ◌+◌, Bool, true, false, not, ◌&&◌, ◌||◌, Option, none, some, List, [], ◌∷◌, ltb,
  leb, ◌==◌, if◌then◌else◌, length, keep, Text, ◌===◌, JsMap, map_get,
}
use gitna.Accumulator.{SidebarFile}

pub data AnnotationSide : Type 0 where
  additions deletions : AnnotationSide

pub data CommentLineType : Type 0 where
  change context : CommentLineType

-- The selected lines of a comment, carried along unread.
pub record LineRange : Type 0 where
  pub start : ℕ
  pub end : ℕ

pub record SavedComment : Type 0 where
  pub author : Text
  pub item_id : Text
  pub key : Text
  pub line_number : ℕ
  pub line_type : CommentLineType
  pub message : Text
  pub range : LineRange
  pub side : AnnotationSide

pub record DeletedComment : Type 0 where
  pub item_id : Text
  pub key : Text

pub record SavedCommentItem : Type 0 where
  pub comments : List SavedComment
  pub file_order : ℕ
  pub item_id : Text
  pub path : Text

-- The comments without the first that has the key.
pub without_existing : Text → List SavedComment → List SavedComment
without_existing key [] = []
without_existing key (c ∷ cs) = if c.key === key then cs else c ∷ without_existing key cs

-- Inserted before the first comment on a later line.
pub splice_comment : SavedComment → List SavedComment → List SavedComment
splice_comment e [] = e ∷ []
splice_comment e (c ∷ cs) =
    if ltb e.line_number c.line_number then e ∷ c ∷ cs else c ∷ splice_comment e cs

pub insert_comment_in_line_order : List SavedComment → SavedComment → List SavedComment
insert_comment_in_line_order comments entry =
    splice_comment entry (without_existing entry.key comments)

-- Inserted before the first section of a later file.
pub splice_section : SavedCommentItem → List SavedCommentItem → List SavedCommentItem
splice_section s [] = s ∷ []
splice_section s (t ∷ ts) =
    if ltb s.file_order t.file_order then s ∷ t ∷ ts else t ∷ splice_section s ts

pub has_section : Text → List SavedCommentItem → Bool
has_section id [] = false
has_section id (s ∷ ss) = s.item_id === id || has_section id ss

-- The first section of the item, with its comments changed.
pub change_section :
    (List SavedComment → List SavedComment) → Text → List SavedCommentItem → List SavedCommentItem
change_section f id [] = []
change_section f id (s ∷ ss) =
    if s.item_id === id
    then record s { comments = f s.comments } ∷ ss
    else s ∷ change_section f id ss

pub upsert_entry : List SavedCommentItem → SidebarFile → SavedComment → List SavedCommentItem
upsert_entry sections file entry =
    if has_section entry.item_id sections
    then change_section (λ comments. insert_comment_in_line_order comments entry) entry.item_id
        sections
    else splice_section
        (record {
          comments = entry ∷ [];
          file_order = file.file_order;
          item_id = entry.item_id;
          path = file.path;
        })
        sections

-- The map of files is null until the data is loaded.
pub upsert_saved_comment :
    List SavedCommentItem → Option (JsMap SidebarFile) → SavedComment → List SavedCommentItem
upsert_saved_comment sections none entry = sections
upsert_saved_comment sections (some files) entry = elim (map_get entry.item_id files) [
  | none ↦ sections
  | some file ↦ upsert_entry sections file entry
]

abbrev pub without_key : Text → List SavedComment → List SavedComment
without_key key = keep (λ c. not (c.key === key))

-- The section without the comments that have the key, or no section when none is left.
pub shrink_section : Text → SavedCommentItem → List SavedCommentItem → List SavedCommentItem
shrink_section key s rest =
    let next = without_key key s.comments in
    if length next == length s.comments
    then s ∷ rest
    else if length next == 0
    then rest
    else record s { comments = next } ∷ rest

pub remove_saved_comment : List SavedCommentItem → DeletedComment → List SavedCommentItem
remove_saved_comment [] entry = []
remove_saved_comment (s ∷ ss) entry =
    if s.item_id === entry.item_id
    then shrink_section entry.key s ss
    else s ∷ remove_saved_comment ss entry

-- A block of unchanged lines, or of changed ones.
pub data HunkContent : Type 0 where
  context_block : ℕ → HunkContent
  change_block : ℕ → ℕ → HunkContent

pub record DiffHunk : Type 0 where
  pub addition_start : ℕ
  pub addition_count : ℕ
  pub deletion_start : ℕ
  pub deletion_count : ℕ
  pub hunk_content : List HunkContent

pub block_length : AnnotationSide → HunkContent → ℕ
block_length side (context_block lines) = lines
block_length additions (change_block added removed) = added
block_length deletions (change_block added removed) = removed

pub block_type : HunkContent → CommentLineType
block_type (context_block lines) = context
block_type (change_block added removed) = change

-- The loop over the blocks of one hunk: nothing when no block has the line.
pub classify_blocks : AnnotationSide → ℕ → ℕ → List HunkContent → Option CommentLineType
classify_blocks side line current [] = none
classify_blocks side line current (b ∷ bs) =
    let len = block_length side b in
    let rest = classify_blocks side line (current + len) bs in
    if len == 0 then rest else if ltb line (current + len) then some (block_type b) else rest

pub hunk_start : AnnotationSide → DiffHunk → ℕ
hunk_start additions h = h.addition_start
hunk_start deletions h = h.deletion_start

pub hunk_count : AnnotationSide → DiffHunk → ℕ
hunk_count additions h = h.addition_count
hunk_count deletions h = h.deletion_count

pub classify_comment_line_type : List DiffHunk → AnnotationSide → ℕ → CommentLineType
classify_comment_line_type [] side line = change
classify_comment_line_type (h ∷ hs) side line =
    let start = hunk_start side h in
    let rest = classify_comment_line_type hs side line in
    if ltb line start || leb (start + hunk_count side h) line
    then rest
    else elim (classify_blocks side line start h.hunk_content) [ none ↦ rest | some t ↦ t ]
