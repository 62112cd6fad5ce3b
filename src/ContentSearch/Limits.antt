-- ===== src/ContentSearch/Limits.antt =====
-- What the reading gives has at most 2,000 matches, and is of one generation.
use gitna.Prelude.{
  ◌==◌, Bool-cases, ltb, coalesce_or, ltb, arith, coalesce_or, codes, ◌≡◌, codes, All, ℕ, ◌+◌, ◌≤◌,
  List, [], ◌∷◌, ◌++◌, refl, inl, inr, Text, false, Option, none, some,
}
use gitna.ContentSearch.{
  maximum_bytes, empty_stream, error_of, read_text, read_parsed, read_pieces, results_so_far,
  maximum_matches, read_lines, read_content_search, read_line, count_matches, SearchFrame,
  ContentSearchResults, bind_step, read_results, add_results, unless_over, read_frame,
  finish_reading, ContentSearchFile, SearchStream, SearchStep, goes_on, is_over, SearchEnd,
  returns_results, throws_frame, throws_error, throws_syntax,
}

-- A result within the limit, of the generation.
abbrev IsLimited : Option ℕ → ContentSearchResults → Type 0
IsLimited generation r =
    (count_matches r.results ≤ maximum_matches) × (generation ≡ some r.generation)

abbrev IsLimitedEnd : Option ℕ → SearchEnd → Type 0
IsLimitedEnd generation (returns_results r) = IsLimited generation r
IsLimitedEnd generation (throws_frame status message code) = Unit
IsLimitedEnd generation (throws_error message) = Unit
IsLimitedEnd generation (throws_syntax line) = Unit

-- The batches and the result are within the limit and of one generation.
pub AllLimited : List ContentSearchResults × SearchEnd → Type 0
AllLimited (batches, end) =
    (generation : Option ℕ) × All (IsLimited generation) batches × IsLimitedEnd generation end

-- The stream counts its matches, within the limit.
abbrev IsCounted : SearchStream → Type 0
IsCounted s =
    (s.matches ≡ count_matches s.results)
    × (s.matches ≤ maximum_matches)
    × All (IsLimited s.generation) s.batches

-- What a step leaves is counted, or what it ends with is limited.
pub IsCountedStep : {A : Type 0} → (A → SearchStream) → SearchStep A → Type 0
IsCountedStep stream_of (goes_on a) = IsCounted (stream_of a)
IsCountedStep stream_of (is_over batches end) = AllLimited (batches, end)

count-append :
    (files more : List ContentSearchFile)
    → count_matches (files ++ more) ≡ count_matches files + count_matches more
unfolding count_matches
count-append [] more = omega arith
count-append (file ∷ files) more = omega (arith, count-append files more)

-- Batches of a generation that is not known yet: there is none.
batches-of_generation :
    (known : Option ℕ) (n : ℕ) (batches : List ContentSearchResults)
    → All (IsLimited known) batches
    → All (IsLimited (some (coalesce_or known n))) batches
batches-of_generation (some g) n batches all = all
batches-of_generation none n [] all = tt
batches-of_generation none n (b ∷ batches) (h, all) = ground (arith, h.1)

All-snoc :
    {A : Type 0} (P : A → Type 0) (xs : List A) (x : A) → All P xs → P x → All P (xs ++ x ∷ [])
All-snoc P [] x all p = (p, tt)
All-snoc P (y ∷ xs) x (q, all) p = (q, All-snoc P xs x all p)

few-le :
    (s : SearchStream) (files : List ContentSearchFile)
    → s.matches ≡ count_matches s.results
    → ltb maximum_matches (s.matches + count_matches files) ≡ false
    → count_matches (s.results ++ files) ≤ maximum_matches
few-le s files counted few = ground (arith, counted, few, count-append s.results files)

add_results-IsCounted :
    (s : SearchStream) (frame : SearchFrame) (files : List ContentSearchFile)
    → IsCounted s
    → IsCountedStep (λ t. t) (add_results s frame (coalesce_or s.generation frame.generation) files)
unfolding add_results results_so_far IsCountedStep AllLimited
add_results-IsCounted s frame files (counted, limited, all) =
    let g = coalesce_or s.generation frame.generation in
    let later = batches-of_generation s.generation frame.generation s.batches all in
    elim (Bool-cases (frame.generation == g)) [
      | inr changed ↦ rw changed (s.generation, all, tt)
      | inl same ↦ elim (Bool-cases (ltb maximum_matches (s.matches + count_matches files))) [
        | inl many ↦ rw same (rw many (s.generation, all, tt))
        | inr few ↦
            let bound = few-le s files counted few in
            elim (Bool-cases frame.done) [
              | inl done ↦ rw same (rw few (rw done (some g, later, (bound, refl))))
              | inr more ↦ rw same (
                  rw few (
                    rw more (
                      cc (counted, count-append s.results files),
                      ground (arith, few),
                      All-snoc (IsLimited (some g)) s.batches _ later (bound, refl),
                    )))
            ]
      ]
    ]

read_results-IsCounted :
    (s : SearchStream) (frame : SearchFrame) (results : Option (List ContentSearchFile))
    → IsCounted s
    → IsCountedStep (λ t. t) (read_results s frame results)
unfolding read_results IsCountedStep AllLimited
read_results-IsCounted s frame none (counted, limited, all) = (s.generation, all, tt)
read_results-IsCounted s frame (some files) h = add_results-IsCounted s frame files h

over-AllLimited :
    (s : SearchStream)
    → IsCounted s
    → AllLimited (s.batches, throws_error (codes "Content search response is too large."))
unfolding AllLimited
over-AllLimited s (counted, limited, all) = (s.generation, all, tt)

read_frame-IsCounted :
    (s : SearchStream) (frame : SearchFrame) (error : Option Text)
    → IsCounted s
    → IsCountedStep (λ t. t) (read_frame s frame error)
unfolding read_frame IsCountedStep AllLimited
read_frame-IsCounted s frame (some message) (counted, limited, all) = (s.generation, all, tt)
read_frame-IsCounted s frame none h = read_results-IsCounted s frame frame.results h

bind_step-IsCounted :
    {A B : Type 0} (a_of : A → SearchStream) (b_of : B → SearchStream) (m : SearchStep A)
    (f : A → SearchStep B)
    → IsCountedStep a_of m
    → ((a : A) → IsCounted (a_of a) → IsCountedStep b_of (f a))
    → IsCountedStep b_of (bind_step m f)
unfolding bind_step IsCountedStep
bind_step-IsCounted a_of b_of (goes_on a) f h k = k a h
bind_step-IsCounted a_of b_of (is_over batches end) f h k = h

finish-AllLimited :
    (m : SearchStep (SearchStream × Text))
    → IsCountedStep (λ t. t.0) m
    → AllLimited (finish_reading m)
unfolding finish_reading IsCountedStep AllLimited
finish-AllLimited (is_over batches end) h = h
finish-AllLimited (goes_on (s, buffered)) (counted, limited, all) = (s.generation, all, tt)

unless_over-AllLimited :
    (m : SearchStep (SearchStream × Text))
    (f : SearchStream × Text → List ContentSearchResults × SearchEnd)
    → IsCountedStep (λ t. t.0) m
    → ((t : SearchStream × Text) → IsCounted t.0 → AllLimited (f t))
    → AllLimited (unless_over m f)
unfolding unless_over IsCountedStep
unless_over-AllLimited (is_over batches end) f h k = h
unless_over-AllLimited (goes_on t) f h k = k t h

module _ (parse : Text → Option SearchFrame) where
  read_parsed-IsCounted :
      (s : SearchStream) (line : Text) (parsed : Option SearchFrame)
      → IsCounted s
      → IsCountedStep (λ t. t) (read_parsed parse s line parsed)
  unfolding read_parsed IsCountedStep AllLimited
  read_parsed-IsCounted s line none (counted, limited, all) = (s.generation, all, tt)
  read_parsed-IsCounted s line (some frame) h =
      read_frame-IsCounted s frame (error_of frame.error) h

  read_line-IsCounted :
      (s : SearchStream) (line : Text)
      → IsCounted s
      → IsCountedStep (λ t. t) (read_line parse s line)
  unfolding read_line IsCountedStep
  read_line-IsCounted s [] h = h
  read_line-IsCounted s (c ∷ line) h = read_parsed-IsCounted s (c ∷ line) (parse (c ∷ line)) h

  read_lines-IsCounted :
      (s : SearchStream) (line : Text) (lines : List Text)
      → IsCounted s
      → IsCountedStep (λ t. t.0) (read_lines parse s line lines)
  unfolding read_lines IsCountedStep
  read_lines-IsCounted s last [] h = h
  read_lines-IsCounted s line (next ∷ lines) h =
      bind_step-IsCounted (λ t. t) (λ t. t.0) (read_line parse s line) _
        (read_line-IsCounted s line h) (λ t k. read_lines-IsCounted t next lines k)

  read_text-IsCounted :
      (t : SearchStream × Text) (text : Text)
      → IsCounted t.0
      → IsCountedStep (λ u. u.0) (read_text parse t text)
  unfolding read_text
  read_text-IsCounted (s, buffered) text h = read_lines-IsCounted s _ _ h

  read_pieces-AllLimited :
      (bytes : ℕ) (t : SearchStream × Text) (pieces : List (ℕ × Text)) (flushed : Text)
      → IsCounted t.0
      → AllLimited (read_pieces parse bytes t pieces flushed)
  unfolding read_pieces
  read_pieces-AllLimited bytes t [] flushed h =
      finish-AllLimited _ (read_text-IsCounted t flushed h)
  read_pieces-AllLimited bytes t ((size, text) ∷ pieces) flushed h =
      elim (Bool-cases (ltb maximum_bytes (bytes + size))) [
        | inl large ↦ rw large (over-AllLimited t.0 h)
        | inr small ↦ rw small (
            unless_over-AllLimited _ _ (read_text-IsCounted t text h)
              (λ u k. read_pieces-AllLimited (bytes + size) u pieces flushed k))
      ]

  -- However the response is cut into pieces and whatever its lines parse to: the reading ends with a result
  -- or an error, every batch and the result have at most 2,000 matches, and they are all of one generation.
  pub read_content_search-AllLimited :
      (pieces : List (ℕ × Text)) (flushed : Text)
      → AllLimited (read_content_search parse pieces flushed)
  unfolding read_content_search count_matches
  read_content_search-AllLimited pieces flushed =
      read_pieces-AllLimited 0 (empty_stream, []) pieces flushed (refl, omega arith, tt)
