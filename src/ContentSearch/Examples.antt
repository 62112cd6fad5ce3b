-- ===== src/ContentSearch/Examples.antt =====
-- Responses read with a parser of single words.
use gitna.Prelude.{
  arith, false, true, ◌≡◌, List, [], ◌∷◌, ◌++◌, refl, Text, codes, split, ◌===◌, if◌then◌else◌,
  Option, none, some, text_dec,
}
use native.Mathlib.Decide.{ℕ_discrete}
use gitna.ContentSearch.{
  false, true, ℕ, ContentSearchFile, ContentSearchResults, SearchFrame, SearchEnd, returns_results,
  newline, maximum_bytes, count_matches, error_of, results_so_far, add_results, read_results,
  read_frame, read_parsed, read_line, read_lines, read_text, finish_reading, unless_over,
  read_pieces, read_content_search, bind_step,
}
use gitna.ContentSearch.Chunks.{texts_of, read_content_search-whole}
use gitna.ContentSearch.Limits.{AllLimited, read_content_search-AllLimited}

-- A word is a file without matches; "end" is the last one, and "x" is no word.
abbrev parse_word : Text → Option SearchFrame
parse_word line =
    if line === codes "x"
    then none
    else some (record {
      generation = 7;
      results = some (record { path = line; matches = [] } ∷ []);
      complete = true;
      truncated = false;
      done = line === codes "end";
      error = none;
      status = none;
      code = none;
    })

-- The words "a" and "end", cut inside of the second one.
abbrev two_pieces : List (ℕ × Text)
two_pieces = (4, codes "a" ++ newline ∷ codes "en") ∷ (2, codes "d" ++ newline ∷ []) ∷ []

abbrev both_files : ContentSearchResults
both_files = record {
  generation = 7;
  results =
      record { path = codes "a"; matches = [] } ∷ record { path = codes "end"; matches = [] } ∷ [];
  complete = true;
  truncated = false;
}

two_pieces-end : (read_content_search parse_word two_pieces []).1 ≡ returns_results both_files
unfolding text_dec ℕ_discrete split count_matches error_of results_so_far add_results read_results
    read_frame read_parsed read_line read_lines read_text finish_reading unless_over read_pieces
    read_content_search bind_step
two_pieces-end = refl

read_content_search-whole_example :
    read_content_search parse_word two_pieces []
    ≡ read_content_search parse_word [] (texts_of two_pieces ++ [])
unfolding texts_of gitna.ContentSearch.Chunks.bytes_of
read_content_search-whole_example = read_content_search-whole parse_word two_pieces [] (omega arith)

read_content_search-AllLimited_example : AllLimited (read_content_search parse_word two_pieces [])
read_content_search-AllLimited_example = read_content_search-AllLimited parse_word two_pieces []
