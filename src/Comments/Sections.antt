-- ===== src/Comments/Sections.antt =====
-- The sections of the sidebar: their order, and a comment that is saved and deleted again.
use gitna.Prelude.{
  ◌⊎◌, Option-cases, ℕ, ◌+◌, ◌≤◌, ◌≡◌, ◌≢◌, refl, ap, true, false, List, [], ◌∷◌, arith, ◌==◌,
  if◌then◌else◌, length, All, Text, Option, none, some, Bool-cases, inl, inr, JsMap, map_get,
}
use gitna.Accumulator.{SidebarFile}
use gitna.Comments.{
  SavedComment, SavedCommentItem, without_existing, splice_comment, insert_comment_in_line_order,
  without_key, splice_section, has_section, change_section, upsert_entry, upsert_saved_comment,
  shrink_section, remove_saved_comment,
}
use gitna.Comments.Order.{has_key}

without_existing_absent :
    (key : Text) (cs : List SavedComment) → has_key key cs ≡ false → without_existing key cs ≡ cs
unfolding without_existing
without_existing_absent key [] h = refl
without_existing_absent key (c ∷ cs) h = ground (arith, without_existing_absent key cs)

without_key_absent :
    (key : Text) (cs : List SavedComment) → has_key key cs ≡ false → without_key key cs ≡ cs
without_key_absent key [] h = refl
without_key_absent key (c ∷ cs) h = ground (arith, without_key_absent key cs)

without_key-splice :
    (e : SavedComment) (cs : List SavedComment)
    → has_key e.key cs ≡ false
    → without_key e.key (splice_comment e cs) ≡ cs
unfolding splice_comment
without_key-splice e [] h = ground arith
without_key-splice e (c ∷ cs) h =
    ground (arith, without_key-splice e cs, without_key_absent e.key cs)

length-splice :
    (e : SavedComment) (cs : List SavedComment) → length (splice_comment e cs) ≡ length cs + 1
unfolding splice_comment
length-splice e [] = omega arith
length-splice e (c ∷ cs) = ground (arith, length-splice e cs)

-- What is known of sections into which the comment is saved for the first time.
abbrev pub IsNewIn : SavedComment → SavedCommentItem → Type 0
IsNewIn e s = (has_key e.key s.comments ≡ false) × (s.comments ≢ [])

shrink-insert :
    (s : SavedCommentItem) (ss : List SavedCommentItem) (e : SavedComment)
    → IsNewIn e s
    → shrink_section e.key (record s { comments = insert_comment_in_line_order s.comments e }) ss
      ≡ s ∷ ss
unfolding shrink_section insert_comment_in_line_order
shrink-insert s ss e n =
    rw
      (
        without_existing_absent e.key s.comments n.0,
        without_key-splice e s.comments n.0,
        length-splice e s.comments,
      )
      (shrunk s.comments n.1 refl)
  where
    shrunk :
        (cs : List SavedComment)
        → cs ≢ []
        → s.comments ≡ cs
        → (if length s.comments == (length s.comments + 1)
            then record s { comments = splice_comment e s.comments } ∷ ss
            else if length s.comments == 0
            then ss
            else s ∷ ss)
          ≡ s ∷ ss
    shrunk [] h p = absurd (h refl)
    shrunk (c ∷ cs) h p = rw p (ground arith)

remove-change :
    (ss : List SavedCommentItem) (e : SavedComment)
    → has_section e.item_id ss ≡ true
    → All (IsNewIn e) ss
    → remove_saved_comment
        (change_section (λ cs. insert_comment_in_line_order cs e) e.item_id ss)
        (record { item_id = e.item_id; key = e.key })
      ≡ ss
unfolding remove_saved_comment change_section has_section
remove-change [] e h n = cc
remove-change (s ∷ ss) e h n = ground (arith, shrink-insert s ss e n.0, remove-change ss e)

remove-splice :
    (ss : List SavedCommentItem) (e : SavedComment) (s : SavedCommentItem)
    → s.item_id ≡ e.item_id
    → s.comments ≡ e ∷ []
    → has_section e.item_id ss ≡ false
    → remove_saved_comment (splice_section s ss) (record { item_id = e.item_id; key = e.key }) ≡ ss
unfolding remove_saved_comment splice_section has_section shrink_section
remove-splice [] e s i c h = ground arith
remove-splice (t ∷ ts) e s i c h = ground (arith, remove-splice ts e s i c)

remove_absent :
    (ss : List SavedCommentItem) (e : SavedComment)
    → All (IsNewIn e) ss
    → remove_saved_comment ss (record { item_id = e.item_id; key = e.key }) ≡ ss
unfolding remove_saved_comment shrink_section
remove_absent [] e n = refl
remove_absent (s ∷ ss) e n = ground (
  arith,
  ap (λ (cs : List SavedComment). length cs) (without_key_absent e.key s.comments n.0.0),
  remove_absent ss e n.1,
)

remove-upsert_entry :
    (ss : List SavedCommentItem) (file : SidebarFile) (e : SavedComment)
    → All (IsNewIn e) ss
    → remove_saved_comment (upsert_entry ss file e) (record { item_id = e.item_id; key = e.key })
      ≡ ss
unfolding upsert_entry
remove-upsert_entry ss file e n = elim (Bool-cases (has_section e.item_id ss)) [
  | inl old ↦ rw (old, upsert_entry) (remove-change ss e old n)
  | inr fresh ↦ rw (fresh, upsert_entry) (remove-splice ss e _ refl refl fresh)
]

-- A comment that is saved under a key that no section has, into sections none of which is empty, and
-- then deleted, leaves the sections as they were.
pub remove-upsert :
    (sections : List SavedCommentItem) (files : Option (JsMap SidebarFile)) (e : SavedComment)
    → All (IsNewIn e) sections
    → remove_saved_comment
        (upsert_saved_comment sections files e)
        (record { item_id = e.item_id; key = e.key })
      ≡ sections
unfolding upsert_saved_comment upsert_entry
remove-upsert sections none e n = remove_absent sections e n
remove-upsert sections (some files) e n = elim (Option-cases (map_get e.item_id files)) [
  | inl u ↦ rw (u, upsert_saved_comment) (remove_absent sections e n)
  | inr (file, u) ↦ rw (u, upsert_saved_comment) (remove-upsert_entry sections file e n)
]

abbrev pub IsOrdered : List SavedCommentItem → Type 0
IsOrdered [] = Unit {0}
IsOrdered (s ∷ ss) = All (λ t. s.file_order ≤ t.file_order) ss × IsOrdered ss

All-mono :
    (m n : ℕ) (ss : List SavedCommentItem)
    → m ≤ n
    → All (λ t. n ≤ t.file_order) ss
    → All (λ t. m ≤ t.file_order) ss
All-mono m n [] h a = tt
All-mono m n (s ∷ ss) h a = (omega arith, All-mono m n ss h a.1)

All-splice :
    (m : ℕ) (s : SavedCommentItem) (ss : List SavedCommentItem)
    → m ≤ s.file_order
    → All (λ t. m ≤ t.file_order) ss
    → All (λ t. m ≤ t.file_order) (splice_section s ss)
unfolding splice_section
All-splice m s [] h a = (h, tt)
All-splice m s (t ∷ ts) h a = ground (arith, All-splice m s ts h a.1)

IsOrdered-splice :
    (s : SavedCommentItem) (ss : List SavedCommentItem)
    → IsOrdered ss
    → IsOrdered (splice_section s ss)
unfolding splice_section
IsOrdered-splice s [] o = (tt, tt)
IsOrdered-splice s (t ∷ ts) o = ground (
  arith,
  All-mono s.file_order t.file_order ts,
  All-splice t.file_order s ts,
  IsOrdered-splice s ts o.1,
)

All-change :
    (m : ℕ) (f : List SavedComment → List SavedComment) (id : Text) (ss : List SavedCommentItem)
    → All (λ t. m ≤ t.file_order) ss
    → All (λ t. m ≤ t.file_order) (change_section f id ss)
unfolding change_section
All-change m f id [] a = tt
All-change m f id (s ∷ ss) a = ground (arith, All-change m f id ss a.1)

IsOrdered-change :
    (f : List SavedComment → List SavedComment) (id : Text) (ss : List SavedCommentItem)
    → IsOrdered ss
    → IsOrdered (change_section f id ss)
unfolding change_section
IsOrdered-change f id [] o = tt
IsOrdered-change f id (s ∷ ss) o =
    ground (arith, All-change s.file_order f id ss o.0, IsOrdered-change f id ss o.1)

-- Saving a comment, into a section that is there or a new one, keeps the sections in the order of
-- their files.
pub upsert_saved_comment-IsOrdered :
    (sections : List SavedCommentItem) (files : Option (JsMap SidebarFile)) (e : SavedComment)
    → IsOrdered sections
    → IsOrdered (upsert_saved_comment sections files e)
unfolding upsert_saved_comment upsert_entry
upsert_saved_comment-IsOrdered sections none e o = o
upsert_saved_comment-IsOrdered sections (some files) e o =
    elim (Option-cases (map_get e.item_id files)) [
      | inl u ↦ rw (u, upsert_saved_comment) o
      | inr (file, u) ↦
          rw (u, upsert_saved_comment) (placed file (Bool-cases (has_section e.item_id sections)))
    ]
  where
    placed :
        (file : SidebarFile)
        → (has_section e.item_id sections ≡ true) ⊎ (has_section e.item_id sections ≡ false)
        → IsOrdered (upsert_entry sections file e)
    placed file (inl old) =
        rw (old, upsert_entry)
          (IsOrdered-change (λ cs. insert_comment_in_line_order cs e) e.item_id sections o)
    placed file (inr fresh) = rw (fresh, upsert_entry) (IsOrdered-splice _ sections o)
