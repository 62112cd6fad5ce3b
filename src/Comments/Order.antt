-- ===== src/Comments/Order.antt =====
-- The comments of a section stay in the order of their lines, one for each key.
use gitna.Prelude.{
  ℕ, ◌≤◌, ◌≡◌, ◌≢◌, refl, ap, Bool, false, ◌||◌, List, [], ◌∷◌, arith, if◌then◌else◌, All, Text,
  ◌===◌, Option, some, find_first,
}
use gitna.Comments.{SavedComment, without_existing, splice_comment, insert_comment_in_line_order}

-- Every comment stands on a line no later than the comments after it.
abbrev pub IsOrdered : List SavedComment → Type 0
IsOrdered [] = Unit {0}
IsOrdered (c ∷ cs) = All (λ d. c.line_number ≤ d.line_number) cs × IsOrdered cs

abbrev pub has_key : Text → List SavedComment → Bool
has_key key [] = false
has_key key (c ∷ cs) = c.key === key || has_key key cs

-- No two comments share a key.
abbrev pub IsKeyed : List SavedComment → Type 0
IsKeyed [] = Unit {0}
IsKeyed (c ∷ cs) = (has_key c.key cs ≡ false) × IsKeyed cs

-- The comment that has a key.
abbrev pub at_key : Text → List SavedComment → Option SavedComment
at_key key = find_first (λ c. c.key === key)

All-mono :
    (m n : ℕ) (cs : List SavedComment)
    → m ≤ n
    → All (λ d. n ≤ d.line_number) cs
    → All (λ d. m ≤ d.line_number) cs
All-mono m n [] h a = tt
All-mono m n (c ∷ cs) h a = (omega arith, All-mono m n cs h a.1)

All-without :
    (m : ℕ) (key : Text) (cs : List SavedComment)
    → All (λ d. m ≤ d.line_number) cs
    → All (λ d. m ≤ d.line_number) (without_existing key cs)
unfolding without_existing
All-without m key [] a = tt
All-without m key (c ∷ cs) a = ground (arith, All-without m key cs a.1)

IsOrdered-without :
    (key : Text) (cs : List SavedComment) → IsOrdered cs → IsOrdered (without_existing key cs)
unfolding without_existing
IsOrdered-without key [] o = tt
IsOrdered-without key (c ∷ cs) o =
    ground (arith, All-without c.line_number key cs o.0, IsOrdered-without key cs o.1)

All-splice :
    (m : ℕ) (e : SavedComment) (cs : List SavedComment)
    → m ≤ e.line_number
    → All (λ d. m ≤ d.line_number) cs
    → All (λ d. m ≤ d.line_number) (splice_comment e cs)
unfolding splice_comment
All-splice m e [] h a = (h, tt)
All-splice m e (c ∷ cs) h a = ground (arith, All-splice m e cs h a.1)

IsOrdered-splice :
    (e : SavedComment) (cs : List SavedComment) → IsOrdered cs → IsOrdered (splice_comment e cs)
unfolding splice_comment
IsOrdered-splice e [] o = (tt, tt)
IsOrdered-splice e (c ∷ cs) o = ground (
  arith,
  All-mono e.line_number c.line_number cs,
  All-splice c.line_number e cs,
  IsOrdered-splice e cs o.1,
)

has_key-without :
    (k key : Text) (cs : List SavedComment)
    → has_key k cs ≡ false
    → has_key k (without_existing key cs) ≡ false
unfolding without_existing
has_key-without k key [] h = refl
has_key-without k key (c ∷ cs) h = ground (arith, has_key-without k key cs)

has_key-congr : (k j : Text) (cs : List SavedComment) → k ≡ j → has_key k cs ≡ has_key j cs
has_key-congr k j cs e = ap (λ t. has_key t cs) e

has_key-without_self :
    (key : Text) (cs : List SavedComment)
    → IsKeyed cs
    → has_key key (without_existing key cs) ≡ false
unfolding without_existing
has_key-without_self key [] h = refl
has_key-without_self key (c ∷ cs) h =
    ground (arith, has_key-without_self key cs h.1, has_key-congr c.key key cs)

has_key-splice :
    (k : Text) (e : SavedComment) (cs : List SavedComment)
    → has_key k (splice_comment e cs) ≡ (e.key === k || has_key k cs)
unfolding splice_comment
has_key-splice k e [] = refl
has_key-splice k e (c ∷ cs) = ground (arith, has_key-splice k e cs)

IsKeyed-without :
    (key : Text) (cs : List SavedComment) → IsKeyed cs → IsKeyed (without_existing key cs)
unfolding without_existing
IsKeyed-without key [] h = tt
IsKeyed-without key (c ∷ cs) h =
    ground (arith, has_key-without c.key key cs, IsKeyed-without key cs h.1)

IsKeyed-splice :
    (e : SavedComment) (cs : List SavedComment)
    → has_key e.key cs ≡ false
    → IsKeyed cs
    → IsKeyed (splice_comment e cs)
unfolding splice_comment
IsKeyed-splice e [] f h = (refl, tt)
IsKeyed-splice e (c ∷ cs) f h = ground (arith, has_key-splice c.key e cs, IsKeyed-splice e cs)

at_key-splice :
    (k : Text) (e : SavedComment) (cs : List SavedComment)
    → has_key e.key cs ≡ false
    → at_key k (splice_comment e cs) ≡ (if e.key === k then some e else at_key k cs)
unfolding splice_comment
at_key-splice k e [] f = refl
at_key-splice k e (c ∷ cs) f = ground (arith, at_key-splice k e cs)

at_key-without :
    (k key : Text) (cs : List SavedComment)
    → key ≢ k
    → at_key k (without_existing key cs) ≡ at_key k cs
unfolding without_existing
at_key-without k key [] n = refl
at_key-without k key (c ∷ cs) n = ground (arith, at_key-without k key cs n)

pub insert_comment-IsOrdered :
    (cs : List SavedComment) (e : SavedComment)
    → IsOrdered cs
    → IsOrdered (insert_comment_in_line_order cs e)
unfolding insert_comment_in_line_order
insert_comment-IsOrdered cs e o = IsOrdered-splice e _ (IsOrdered-without e.key cs o)

pub insert_comment-IsKeyed :
    (cs : List SavedComment) (e : SavedComment)
    → IsKeyed cs
    → IsKeyed (insert_comment_in_line_order cs e)
unfolding insert_comment_in_line_order
insert_comment-IsKeyed cs e h =
    IsKeyed-splice e _ (has_key-without_self e.key cs h) (IsKeyed-without e.key cs h)

-- Inserting a comment into comments in the order of their lines, one for each key, gives such comments
-- again; under its key stands the new comment, and under every other key what stood there.
pub insert_comment_lem :
    (cs : List SavedComment) (e : SavedComment) (k : Text)
    → IsOrdered cs
    → IsKeyed cs
    → let ds = insert_comment_in_line_order cs e in
      IsOrdered ds × IsKeyed ds × (at_key k ds ≡ (if e.key === k then some e else at_key k cs))
insert_comment_lem cs e k o h =
    (insert_comment-IsOrdered cs e o, insert_comment-IsKeyed cs e h, found)
  where
    found :
        at_key k (insert_comment_in_line_order cs e) ≡ (if e.key === k then some e else at_key k cs)
    found =
        unfold insert_comment_in_line_order in
        ground (
          arith,
          at_key-splice k e (without_existing e.key cs),
          has_key-without_self e.key cs h,
          at_key-without k e.key cs,
        )
