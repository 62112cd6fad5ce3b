-- ===== src/FileSearch.antt =====
-- web/src/diffshub/gitna/repository.tsx: searchOrdinaryFiles, cut at its `await`, and what invalidateReadWork
-- does to it. The abort controller of a search is known by the number of its request.
mod Waiting
mod Examples
use gitna.Prelude.{
  ℕ, zero, suc, ◌+◌, Bool, true, false, not, ◌&&◌, ◌||◌, List, [], ◌∷◌, Option, none, some,
  if◌then◌else◌, ◌==◌, ltb, Text,
}
use gitna.History.{Answer, arrived, failed, is_member, abort}

pub record FileSearchResult : Type 0 where
  pub duplicate_name : Bool
  pub match_indices : Option (List ℕ)
  pub name : Text
  pub parent : Text
  pub path : Text

pub record FileSearchResults : Type 0 where
  pub generation : ℕ
  pub results : List FileSearchResult
  pub complete : Bool

pub record FileSearch : Type 0 where
  pub request : ℕ
  pub controller : Option ℕ
  pub aborted : List ℕ
  pub results : List FileSearchResult
  pub result_query : Option Text
  pub result_include_ignored : Bool
  pub complete : Bool
  pub loading : Bool
  pub error : Option Text

-- A search that waits for the server.
pub record SearchRead : Type 0 where
  pub request : ℕ
  pub query : Text
  pub include_ignored : Bool

unfoldable pub begin_search : FileSearch → Text → Bool → FileSearch × SearchRead
begin_search s query include_ignored = (
  record s {
    request = suc s.request;
    aborted = abort s.controller s.aborted;
    controller = some (suc s.request);
    loading = true;
    error = none;
  },
  record { request = suc s.request; query = query; include_ignored = include_ignored },
)

-- The results of an answer; those of an earlier generation than the folder's are dropped.
unfoldable pub show_results : FileSearch → ℕ → SearchRead → FileSearchResults → FileSearch
show_results s generation r response =
    if ltb response.generation generation
    then record s {
      results = [];
      result_query = some r.query;
      result_include_ignored = r.include_ignored;
      complete = false;
    }
    else record s {
      results = response.results;
      result_query = some r.query;
      result_include_ignored = r.include_ignored;
      complete = response.complete;
    }

unfoldable pub answer_search : FileSearch → ℕ → SearchRead → Answer FileSearchResults → FileSearch
answer_search s generation r (arrived response) =
    if r.request == s.request then show_results s generation r response else s
answer_search s generation r (failed status message) =
    if is_member r.request s.aborted || not (r.request == s.request)
    then s
    else record s { error = some message }

-- The `finally` of a search.
unfoldable pub end_search : FileSearch → SearchRead → FileSearch
end_search s r = if r.request == s.request then record s { loading = false } else s

unfoldable pub settle_search : FileSearch → ℕ → SearchRead → Answer FileSearchResults → FileSearch
settle_search s generation r answer = end_search (answer_search s generation r answer) r

unfoldable pub invalidate_search : FileSearch → FileSearch
invalidate_search s = record s {
  request = suc s.request;
  loading = false;
  error = none;
  aborted = abort s.controller s.aborted;
}

pub record SearchWorld : Type 0 where
  pub state : FileSearch
  pub reads : List SearchRead

pub data SearchEvent : Type 0 where
  begins_search : Text → Bool → SearchEvent
  answers_search : ℕ → ℕ → Answer FileSearchResults → SearchEvent
  invalidates_search : SearchEvent

-- The search of the index, and the other ones.
unfoldable pub take_search : ℕ → List SearchRead → Option SearchRead × List SearchRead
take_search i [] = (none, [])
take_search zero (r ∷ reads) = (some r, reads)
take_search (suc i) (r ∷ reads) = let (taken, rest) = take_search i reads in (taken, r ∷ rest)

unfoldable pub settle_taken :
    SearchWorld → ℕ → Answer FileSearchResults → Option SearchRead × List SearchRead → SearchWorld
settle_taken w generation answer (none, rest) = w
settle_taken w generation answer (some r, rest) = record {
  state = settle_search w.state generation r answer;
  reads = rest;
}

unfoldable pub search_step : SearchWorld → SearchEvent → SearchWorld
search_step w (begins_search query include_ignored) =
    let (s, r) = begin_search w.state query include_ignored in
    record { state = s; reads = r ∷ w.reads }
search_step w (answers_search i generation answer) =
    settle_taken w generation answer (take_search i w.reads)
search_step w invalidates_search = record w { state = invalidate_search w.state }

unfoldable pub search_run : SearchWorld → List SearchEvent → SearchWorld
search_run w [] = w
search_run w (e ∷ events) = search_run (search_step w e) events
