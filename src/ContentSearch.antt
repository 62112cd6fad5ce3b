-- ===== src/ContentSearch.antt =====
-- web/src/lib/contentSearchStream.ts: readContentSearchStream. The response is the list of its pieces, each
-- with its bytes and the text that the decoder gives for it, and the text that the decoder gives at the end;
-- JSON.parse is a parameter, the response has a body, and its reads do not fail. The batches are the
-- arguments of the calls of onBatch, in their order.
mod Chunks
mod Limits
mod Examples
use gitna.Prelude.{
  ℕ, ◌+◌, Bool, true, false, not, List, [], ◌∷◌, ◌++◌, Option, none, some, if◌then◌else◌, ◌==◌, ltb,
  length, coalesce_or, Text, codes, split,
}

pub record ContentSearchMatch : Type 0 where
  pub line : ℕ
  pub column : ℕ
  pub length : ℕ
  pub excerpt : Text
  pub match_start : ℕ
  pub match_end : ℕ

pub record ContentSearchFile : Type 0 where
  pub path : Text
  pub matches : List ContentSearchMatch

pub record ContentSearchResults : Type 0 where
  pub generation : ℕ
  pub results : List ContentSearchFile
  pub complete : Bool
  pub truncated : Bool

-- A line of the response; `results` is missing when it is not an array.
pub record SearchFrame : Type 0 where
  pub generation : ℕ
  pub results : Option (List ContentSearchFile)
  pub complete : Bool
  pub truncated : Bool
  pub done : Bool
  pub error : Option Text
  pub status : Option ℕ
  pub code : Option Text

-- How the reading ends: a result, an error of a frame, an error of the client, or what JSON.parse throws.
pub data SearchEnd : Type 0 where
  returns_results : ContentSearchResults → SearchEnd
  throws_frame : ℕ → Text → Option Text → SearchEnd
  throws_error : Text → SearchEnd
  throws_syntax : Text → SearchEnd

-- The variables of the reading, without the buffer and the count of the bytes.
pub record SearchStream : Type 0 where
  pub matches : ℕ
  pub generation : Option ℕ
  pub results : List ContentSearchFile
  pub batches : List ContentSearchResults

-- A step goes on with a value, or ends the reading.
pub data SearchStep (A : Type 0) : Type 0 where
  goes_on : A → SearchStep A
  is_over : List ContentSearchResults → SearchEnd → SearchStep A

unfoldable pub bind_step : {A B : Type 0} → SearchStep A → (A → SearchStep B) → SearchStep B
bind_step (goes_on a) f = f a
bind_step (is_over batches end) f = is_over batches end

abbrev pub maximum_bytes : ℕ
maximum_bytes = 2097152

abbrev pub maximum_matches : ℕ
maximum_matches = 2000

abbrev pub newline : ℕ
newline = 10

unfoldable pub count_matches : List ContentSearchFile → ℕ
count_matches [] = 0
count_matches (file ∷ files) = length file.matches + count_matches files

-- The error of a frame, unless it is missing or empty.
unfoldable pub error_of : Option Text → Option Text
error_of none = none
error_of (some []) = none
error_of (some (c ∷ message)) = some (c ∷ message)

unfoldable pub results_so_far : SearchStream → ℕ → SearchFrame → ContentSearchResults
results_so_far s generation frame = record {
  generation = generation;
  results = s.results;
  complete = frame.complete;
  truncated = frame.truncated;
}

-- A frame with its results, after its checks.
unfoldable pub add_results :
    SearchStream → SearchFrame → ℕ → List ContentSearchFile → SearchStep SearchStream
add_results s frame generation files =
    let next = record s {
      matches = s.matches + count_matches files;
      generation = some generation;
      results = s.results ++ files;
    } in
    let result = results_so_far next generation frame in
    if not (frame.generation == generation)
    then is_over s.batches (throws_error (codes "Folder changed while searching."))
    else if ltb maximum_matches (s.matches + count_matches files)
    then is_over s.batches (throws_error (codes "Content search returned too many matches."))
    else if frame.done
    then is_over s.batches (returns_results result)
    else goes_on (record next { batches = s.batches ++ result ∷ [] })

unfoldable pub read_results :
    SearchStream → SearchFrame → Option (List ContentSearchFile) → SearchStep SearchStream
read_results s frame none =
    is_over s.batches (throws_error (codes "Invalid content search response."))
read_results s frame (some files) =
    add_results s frame (coalesce_or s.generation frame.generation) files

unfoldable pub read_frame : SearchStream → SearchFrame → Option Text → SearchStep SearchStream
read_frame s frame (some message) =
    is_over s.batches (throws_frame (coalesce_or frame.status 500) message frame.code)
read_frame s frame none = read_results s frame frame.results

module _ (parse : Text → Option SearchFrame) where
  unfoldable pub read_parsed : SearchStream → Text → Option SearchFrame → SearchStep SearchStream
  read_parsed s line none = is_over s.batches (throws_syntax line)
  read_parsed s line (some frame) = read_frame s frame (error_of frame.error)

  -- A line of the response; an empty one is skipped.
  unfoldable pub read_line : SearchStream → Text → SearchStep SearchStream
  read_line s [] = goes_on s
  read_line s (c ∷ line) = read_parsed s (c ∷ line) (parse (c ∷ line))

  -- The loop over the lines that end in the buffer; what follows the last newline stays there.
  unfoldable pub read_lines : SearchStream → Text → List Text → SearchStep (SearchStream × Text)
  read_lines s last [] = goes_on (s, last)
  read_lines s line (next ∷ lines) = bind_step (read_line s line) (λ t. read_lines t next lines)

  unfoldable pub read_text : SearchStream × Text → Text → SearchStep (SearchStream × Text)
  read_text (s, buffered) text =
      let (line, lines) = split newline (buffered ++ text) in read_lines s line lines

-- The end of the response, which is too early if nothing ended the reading.
unfoldable pub finish_reading :
    SearchStep (SearchStream × Text) → List ContentSearchResults × SearchEnd
finish_reading (is_over batches end) = (batches, end)
finish_reading (goes_on (s, buffered)) =
    (s.batches, throws_error (codes "Content search ended before completion."))

unfoldable pub unless_over :
    SearchStep (SearchStream × Text)
    → (SearchStream × Text → List ContentSearchResults × SearchEnd)
    → List ContentSearchResults × SearchEnd
unless_over (is_over batches end) f = (batches, end)
unless_over (goes_on t) f = f t

abbrev pub empty_stream : SearchStream
empty_stream = record { matches = 0; generation = none; results = []; batches = [] }

module _ (parse : Text → Option SearchFrame) where
  unfoldable pub read_pieces :
      ℕ → SearchStream × Text → List (ℕ × Text) → Text → List ContentSearchResults × SearchEnd
  read_pieces bytes t [] flushed = finish_reading (read_text parse t flushed)
  read_pieces bytes t ((size, text) ∷ pieces) flushed =
      if ltb maximum_bytes (bytes + size)
      then (t.0.batches, throws_error (codes "Content search response is too large."))
      else unless_over (read_text parse t text) (λ u. read_pieces (bytes + size) u pieces flushed)

  unfoldable pub read_content_search :
      List (ℕ × Text) → Text → List ContentSearchResults × SearchEnd
  read_content_search pieces flushed = read_pieces 0 (empty_stream, []) pieces flushed
