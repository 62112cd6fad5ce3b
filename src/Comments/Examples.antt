-- ===== src/Comments/Examples.antt =====
-- The theorems on comments at one section and one hunk.
use gitna.Prelude.{
  ℕ, ◌+◌, ◌≡◌, inr, refl, Option, some, List, [], ◌∷◌, All, Text, codes, ◌===◌, if◌then◌else◌,
  arith, JsMap, text_dec,
}
use gitna.Accumulator.{SidebarFile}
use gitna.Comments.{
  SavedComment, SavedCommentItem, additions, change, DiffHunk, context_block, change_block,
  hunk_start, hunk_count, insert_comment_in_line_order, upsert_saved_comment, remove_saved_comment,
  classify_comment_line_type, block_length, block_type,
}
use gitna.Comments.Order.{IsOrdered, IsKeyed, at_key, insert_comment_lem}
use gitna.Comments.Sections
use gitna.Comments.Sections.{IsNewIn, remove-upsert, upsert_saved_comment-IsOrdered}
use gitna.Comments.Classify.{
  line_types, classify_comment_line_type_first, classify_comment_line_type_outside,
}

abbrev comment : Text → ℕ → SavedComment
comment key line = record {
  author = codes "ed";
  item_id = codes "a.ts";
  key = key;
  line_number = line;
  line_type = change;
  message = [];
  range = record { start = line; end = line };
  side = additions;
}

abbrev two_comments : List SavedComment
two_comments = comment (codes "k") 3 ∷ comment (codes "l") 7 ∷ []

two_comments-IsKeyed : IsKeyed two_comments
unfolding text_dec
two_comments-IsKeyed = (refl, (refl, tt))

insert_comment_lem_example :
    let e = comment (codes "k") 9 in
    let ds = insert_comment_in_line_order two_comments e in
    IsOrdered ds
    × IsKeyed ds
    × (at_key (codes "l") ds
        ≡ (if codes "k" === codes "l" then some e else at_key (codes "l") two_comments))
insert_comment_lem_example =
    insert_comment_lem two_comments (comment (codes "k") 9) (codes "l") (omega arith)
      two_comments-IsKeyed

abbrev one_section : List SavedCommentItem
one_section =
    record { comments = two_comments; file_order = 2; item_id = codes "a.ts"; path = codes "a.ts" }
    ∷ []

abbrev files : Option (JsMap SidebarFile)
files = some ((codes "a.ts", record { file_order = 2; path = codes "a.ts" }) ∷ [])

one_section-IsNewIn : All (IsNewIn (comment (codes "m") 5)) one_section
unfolding text_dec
one_section-IsNewIn = ((refl, λ e. cc), tt)

remove-upsert_example :
    remove_saved_comment
      (upsert_saved_comment one_section files (comment (codes "m") 5))
      (record { item_id = codes "a.ts"; key = codes "m" })
    ≡ one_section
remove-upsert_example = remove-upsert one_section files (comment (codes "m") 5) one_section-IsNewIn

upsert_saved_comment-IsOrdered_example :
    Sections.IsOrdered (upsert_saved_comment one_section files (comment (codes "m") 5))
upsert_saved_comment-IsOrdered_example =
    upsert_saved_comment-IsOrdered one_section files (comment (codes "m") 5) (tt, tt)

abbrev hunk : DiffHunk
hunk = record {
  addition_start = 10;
  addition_count = 4;
  deletion_start = 10;
  deletion_count = 3;
  hunk_content = context_block 2 ∷ change_block 2 1 ∷ [];
}

classify_comment_line_type_first_example :
    classify_comment_line_type (hunk ∷ []) additions (hunk_start additions hunk + 2) ≡ change
unfolding line_types block_length block_type hunk_count
classify_comment_line_type_first_example =
    classify_comment_line_type_first hunk [] additions 2 change (omega arith) refl

classify_comment_line_type_outside_example :
    classify_comment_line_type (hunk ∷ []) additions 30 ≡ change
unfolding hunk_count hunk_start
classify_comment_line_type_outside_example =
    classify_comment_line_type_outside (hunk ∷ []) additions 30 (inr (omega arith), tt)
