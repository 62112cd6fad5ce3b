-- ===== src/FileSearch/Waiting.antt =====
-- The explorer shows that it searches exactly while the newest search waits for the server.
use gitna.Prelude.{
  ◌&&◌, not, Bool, if◌then◌else◌, ◌==◌, arith, ◌≡◌, ℕ, zero, suc, ◌+◌, ◌≤◌, List, [], ◌∷◌, refl,
  Option, none, some, length, keep, All,
}
use gitna.FileSearch.{
  invalidate_search, not, begin_search, show_results, SearchEvent, FileSearchResults, end_search,
  settle_search, take_search, settle_taken, answer_search, Bool, search_run, search_step,
  SearchWorld, SearchRead, FileSearch, begins_search, answers_search, invalidates_search,
}
use gitna.History.{Answer, arrived, failed}

-- How many searches of the request wait.
abbrev pub count_newest : ℕ → List SearchRead → ℕ
count_newest request reads = length (keep (λ r. r.request == request) reads)

abbrev pub shown_count : Bool → ℕ
shown_count loading = if loading then 1 else 0

abbrev pub AllBegun : ℕ → List SearchRead → Type 0
AllBegun request reads = All (λ r. r.request ≤ request) reads

-- The newest search waits when the explorer shows that it searches, and only then; no later one was begun.
unfoldable pub IsWaiting : SearchWorld → Type 0
IsWaiting w =
    (count_newest w.state.request w.reads ≡ shown_count w.state.loading)
    × AllBegun w.state.request w.reads

-- No search waits that was not begun.
count-unbegun :
    (request : ℕ) (reads : List SearchRead)
    → AllBegun request reads
    → count_newest (suc request) reads ≡ 0
count-unbegun request [] all = refl
count-unbegun request (r ∷ reads) (h, all) = ground (arith, h, count-unbegun request reads all)

AllBegun-suc :
    (request : ℕ) (reads : List SearchRead) → AllBegun request reads → AllBegun (suc request) reads
AllBegun-suc request [] all = tt
AllBegun-suc request (r ∷ reads) (h, all) = (omega (arith, h), AllBegun-suc request reads all)

-- What the search that is taken adds to the count.
abbrev taken_count : ℕ → Option SearchRead → ℕ
taken_count request none = 0
taken_count request (some r) = if r.request == request then 1 else 0

count-take :
    (request i : ℕ) (reads : List SearchRead)
    → count_newest request reads
      ≡ taken_count request (take_search i reads).0 + count_newest request (take_search i reads).1
unfolding take_search
count-take request i [] = refl
count-take request zero (r ∷ reads) = ground arith
count-take request (suc i) (r ∷ reads) = ground (arith, count-take request i reads)

AllBegun-take :
    (request i : ℕ) (reads : List SearchRead)
    → AllBegun request reads
    → AllBegun request (take_search i reads).1
unfolding take_search
AllBegun-take request i [] all = tt
AllBegun-take request zero (r ∷ reads) (h, all) = all
AllBegun-take request (suc i) (r ∷ reads) (h, all) = (h, AllBegun-take request i reads all)

-- An answer leaves the request and what is shown of it.
request-answer :
    (s : FileSearch) (generation : ℕ) (r : SearchRead) (answer : Answer FileSearchResults)
    → (answer_search s generation r answer).request ≡ s.request
unfolding answer_search show_results
request-answer s generation r (arrived response) = ground arith
request-answer s generation r (failed status message) = ground arith

loading-answer :
    (s : FileSearch) (generation : ℕ) (r : SearchRead) (answer : Answer FileSearchResults)
    → (answer_search s generation r answer).loading ≡ s.loading
unfolding answer_search show_results
loading-answer s generation r (arrived response) = ground arith
loading-answer s generation r (failed status message) = ground arith

request-settle :
    (s : FileSearch) (generation : ℕ) (r : SearchRead) (answer : Answer FileSearchResults)
    → (settle_search s generation r answer).request ≡ s.request
unfolding settle_search end_search
request-settle s generation r answer = ground (arith, request-answer s generation r answer)

loading-settle :
    (s : FileSearch) (generation : ℕ) (r : SearchRead) (answer : Answer FileSearchResults)
    → (settle_search s generation r answer).loading ≡ (not (r.request == s.request) && s.loading)
unfolding settle_search end_search
loading-settle s generation r answer =
    ground (arith, request-answer s generation r answer, loading-answer s generation r answer)

settle-IsWaiting :
    (w : SearchWorld) (generation : ℕ) (answer : Answer FileSearchResults)
    (taken : Option SearchRead × List SearchRead)
    → count_newest w.state.request w.reads
      ≡ taken_count w.state.request taken.0 + count_newest w.state.request taken.1
    → AllBegun w.state.request taken.1
    → IsWaiting w
    → IsWaiting (settle_taken w generation answer taken)
unfolding IsWaiting settle_taken
settle-IsWaiting w generation answer (none, rest) e all h = h
settle-IsWaiting w generation answer (some r, rest) e all (count, begun) =
    rw (request-settle w.state generation r answer)
      (rw (loading-settle w.state generation r answer) (ground (arith, e, count), all))

search_step-IsWaiting :
    (w : SearchWorld) (e : SearchEvent) → IsWaiting w → IsWaiting (search_step w e)
unfolding IsWaiting search_step begin_search invalidate_search
search_step-IsWaiting w (begins_search query include_ignored) (count, begun) = (
  ground (arith, count-unbegun w.state.request w.reads begun),
  (omega arith, AllBegun-suc w.state.request w.reads begun),
)
search_step-IsWaiting w (answers_search i generation answer) h =
    settle-IsWaiting w generation answer (take_search i w.reads)
      (count-take w.state.request i w.reads) (AllBegun-take w.state.request i w.reads h.1) h
search_step-IsWaiting w invalidates_search (count, begun) =
    (count-unbegun w.state.request w.reads begun, AllBegun-suc w.state.request w.reads begun)

-- Whatever is searched, answered and invalidated in whatever order, starting where it is so: the explorer
-- shows that it searches exactly while one search of the newest request waits for the server.
pub search_run-IsWaiting :
    (w : SearchWorld) (events : List SearchEvent) → IsWaiting w → IsWaiting (search_run w events)
unfolding search_run
search_run-IsWaiting w [] h = h
search_run-IsWaiting w (e ∷ events) h =
    search_run-IsWaiting (search_step w e) events (search_step-IsWaiting w e h)
