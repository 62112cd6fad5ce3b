-- ===== src/ContentSearch/Chunks.antt =====
-- It does not matter how the response is cut into pieces.
use gitna.Prelude.{
  append_assoc, append-nil, arith, ltb, ltb, Bool-cases, ◌≡◌, Option, ℕ, ◌+◌, ◌≤◌, List, [], ◌∷◌,
  ◌++◌, refl, ap, ◌∙◌, sym, inl, inr, Text, false, split, ◌==◌,
}
use gitna.ContentSearch.{
  empty_stream, read_pieces, maximum_bytes, read_text, read_content_search, read_line, SearchEnd,
  read_lines, ContentSearchResults, finish_reading, SearchFrame, unless_over, Option, bind_step,
  SearchStream, SearchStep, goes_on, is_over, newline,
}

bind_step_assoc :
    {A B C : Type 0} (m : SearchStep A) (f : A → SearchStep B) (g : B → SearchStep C)
    → bind_step (bind_step m f) g ≡ bind_step m (λ a. bind_step (f a) g)
unfolding bind_step
bind_step_assoc (goes_on a) f g = refl
bind_step_assoc (is_over batches end) f g = refl

bind_step_cong :
    {A B : Type 0} (m : SearchStep A) (f g : A → SearchStep B)
    → ((a : A) → f a ≡ g a)
    → bind_step m f ≡ bind_step m g
unfolding bind_step
bind_step_cong (goes_on a) f g h = h a
bind_step_cong (is_over batches end) f g h = refl

-- What one piece leaves is finished like the rest of the text.
unless_over-finish :
    (m : SearchStep (SearchStream × Text))
    (f : SearchStream × Text → List ContentSearchResults × SearchEnd)
    (g : SearchStream × Text → SearchStep (SearchStream × Text))
    → ((t : SearchStream × Text) → f t ≡ finish_reading (g t))
    → unless_over m f ≡ finish_reading (bind_step m g)
unfolding unless_over finish_reading bind_step
unless_over-finish (goes_on t) f g h = h t
unless_over-finish (is_over batches end) f g h = refl

-- The text of the pieces, one after the other.
unfoldable pub texts_of : List (ℕ × Text) → Text
texts_of [] = []
texts_of ((size, text) ∷ pieces) = text ++ texts_of pieces

unfoldable pub bytes_of : List (ℕ × Text) → ℕ
bytes_of [] = 0
bytes_of ((size, text) ∷ pieces) = size + bytes_of pieces

-- A text that ends no line: it stands in front of the first line of what follows.
abbrev IsLine : Text → Type 0
IsLine pre =
    (more : Text)
    → split newline (pre ++ more) ≡ (pre ++ (split newline more).0, (split newline more).1)

IsLine-append : (pre : Text) (c : ℕ) → (c == newline) ≡ false → IsLine pre → IsLine (pre ++ c ∷ [])
unfolding split
IsLine-append pre c other plain = λ more.
    ap (split newline) (append_assoc pre (c ∷ []) more)
    ∙ plain (c ∷ more)
    ∙ rw other (
        ap (λ head. (head, (split newline more).1))
          (sym (append_assoc pre (c ∷ []) (split newline more).0)))

ltb-small : (n m : ℕ) → n + m ≤ maximum_bytes → ltb maximum_bytes n ≡ false
ltb-small n m h = ground (arith, h)

module _ (parse : Text → Option SearchFrame) where
  -- The lines of two texts: those of the first one, and then those of what it leaves and the second one.
  read_lines-append :
      (s : SearchStream) (pre first second : Text)
      → IsLine pre
      → read_lines parse s
          (pre ++ (split newline (first ++ second)).0)
          (split newline (first ++ second)).1
        ≡ bind_step
            (read_lines parse s (pre ++ (split newline first).0) (split newline first).1)
            (λ t. read_text parse t second)
  unfolding read_lines read_text split bind_step
  read_lines-append s pre [] second plain =
      ap (λ p. read_lines parse s p.0 p.1) (sym (plain second))
      ∙ ap (λ p. read_text parse (s, p) second) (sym (append-nil pre))
  read_lines-append s pre (c ∷ first) second plain = elim (Bool-cases (c == newline)) [
    | inl ends ↦ rw ends (
        bind_step_cong (read_line parse s (pre ++ [])) _ _
          (λ t. read_lines-append t [] first second (λ more. refl))
        ∙ sym (bind_step_assoc (read_line parse s (pre ++ [])) _ _))
    | inr other ↦ rw other (
        ap (λ p. read_lines parse s p (split newline (first ++ second)).1)
          (sym (append_assoc pre (c ∷ []) (split newline (first ++ second)).0))
        ∙ read_lines-append s (pre ++ c ∷ []) first second (IsLine-append pre c other plain)
        ∙ ap
            (λ p.
              bind_step (read_lines parse s p (split newline first).1)
                (λ t. read_text parse t second))
            (append_assoc pre (c ∷ []) (split newline first).0))
  ]

  -- A piece in front is read like the beginning of the text.
  read_text-append :
      (t : SearchStream × Text) (first second : Text)
      → read_text parse t (first ++ second)
        ≡ bind_step (read_text parse t first) (λ u. read_text parse u second)
  unfolding read_text
  read_text-append (s, buffered) first second =
      ap (λ text. read_lines parse s (split newline text).0 (split newline text).1)
        (sym (append_assoc buffered first second))
      ∙ read_lines-append s [] (buffered ++ first) second (λ more. refl)

  read_pieces-texts :
      (bytes : ℕ) (t : SearchStream × Text) (pieces : List (ℕ × Text)) (flushed : Text)
      → bytes + bytes_of pieces ≤ maximum_bytes
      → read_pieces parse bytes t pieces flushed
        ≡ finish_reading (read_text parse t (texts_of pieces ++ flushed))
  unfolding read_pieces texts_of bytes_of
  read_pieces-texts bytes t [] flushed h = refl
  read_pieces-texts bytes t ((size, text) ∷ pieces) flushed h =
      rw (ltb-small (bytes + size) (bytes_of pieces) (omega (arith, h))) (
        unless_over-finish (read_text parse t text) _
          (λ u. read_text parse u (texts_of pieces ++ flushed))
          (λ u. read_pieces-texts (bytes + size) u pieces flushed (omega (arith, h)))
        ∙ ap finish_reading (sym (read_text-append t text (texts_of pieces ++ flushed)))
        ∙ ap (λ more. finish_reading (read_text parse t more))
            (sym (append_assoc text (texts_of pieces) flushed)))

  -- However the response is cut into pieces, inside of a line or not: as long as it has at most 2 MiB, the
  -- result or the error and the batches before it are those of the whole text read at once.
  pub read_content_search-whole :
      (pieces : List (ℕ × Text)) (flushed : Text)
      → bytes_of pieces ≤ maximum_bytes
      → read_content_search parse pieces flushed
        ≡ read_content_search parse [] (texts_of pieces ++ flushed)
  unfolding read_content_search read_pieces
  read_content_search-whole pieces flushed h =
      read_pieces-texts 0 (empty_stream, []) pieces flushed (omega (arith, h))
