-- ===== src/History/Rows.antt =====
-- The rows of the history that is shown are the graph of its commits, whatever happens.
use gitna.History.{
  invalidate_reads, settle_page, run, step, settle_total, finish_with, settle_count, settle_more,
  finish_count, begin_more, settle_refresh, count_cache_key, is_present, GraphPage, Refresh,
  finish_graph, extend_page, Event, refresh_if, show_and_count, show_page, History, begin_count,
  begin_refresh,
}
use gitna.Prelude.{
  if-holds, map_get, Option-cases, Text, ℕ, ◌≡◌, refl, ap, ◌∙◌, Bool, true, false, not, inl, inr,
  Option, none, some, List, [], ◌∷◌, ◌++◌, keep, All, Bool-cases, map_get, Text, Option-cases,
}
use gitna.Graph.{compute_graph, append_graph}
use gitna.Graph.Paging.{HasFirstParent, append_graph-compute_graph}
use gitna.History.{
  History, Event, answers_page, answers_count, asks_refresh, asks_more, invalidates, Answer,
  arrived, failed, Refresh, More, Count, Pending, refreshing, extending, counting, GraphPage,
  GraphCount, World,
}

-- The rows are the graph of the commits, each of which can have its lanes resumed.
abbrev pub IsDrawn : History → Type 0
IsDrawn h = (h.graph_rows ≡ compute_graph h.graph_commits) × All HasFirstParent h.graph_commits

-- The page that an event brings, if any, has no commit with the empty text for its first parent.
abbrev pub IsWellFormed : Event → Type 0
IsWellFormed (answers_page i (arrived page)) = All HasFirstParent page.commits
IsWellFormed (answers_page i (failed status message)) = Unit
IsWellFormed (asks_refresh recovery) = Unit
IsWellFormed asks_more = Unit
IsWellFormed invalidates = Unit
IsWellFormed (answers_count i answer) = Unit

module _ {A : Type 0} (P : A → Type 0) where
  All-append : (xs ys : List A) → All P xs → All P ys → All P (xs ++ ys)
  All-append [] ys all_xs all_ys = all_ys
  All-append (x ∷ xs) ys (holds, all_xs) all_ys = (holds, All-append xs ys all_xs all_ys)

  All-keep : (p : A → Bool) (xs : List A) → All P xs → All P (keep p xs)
  All-keep p [] all_xs = tt
  All-keep p (x ∷ xs) (holds, all_xs) = elim (Bool-cases (p x)) [
    | inl e ↦ rw e (holds, All-keep p xs all_xs)
    | inr e ↦ rw e (All-keep p xs all_xs)
  ]

abbrev IsDrawnResult : History × List Pending → Type 0
IsDrawnResult r = IsDrawn r.0

finish_graph-IsDrawn :
    (h : History) (request epoch : ℕ) → IsDrawn h → IsDrawn (finish_graph h request epoch)
unfolding finish_graph
finish_graph-IsDrawn h request epoch d = d

begin_refresh-IsDrawn :
    (h : History) (recovery : ℕ) → IsDrawn h → IsDrawn (begin_refresh h recovery).0
unfolding begin_refresh
begin_refresh-IsDrawn h recovery d = d

refresh_if-IsDrawn :
    (refresh : Bool) (h : History) (request epoch : ℕ)
    → IsDrawn h
    → IsDrawn (refresh_if refresh h request epoch).0
unfolding refresh_if
refresh_if-IsDrawn refresh h request epoch d =
    let finished = finish_graph-IsDrawn h request epoch d in
    if-holds IsDrawnResult _ _ _ (begin_refresh-IsDrawn _ 0 finished) finished

begin_count-IsDrawn :
    (h : History) (tip : Text) (generation request epoch recovery : ℕ)
    → IsDrawn h
    → IsDrawn (begin_count h tip generation request epoch recovery).0
unfolding begin_count
begin_count-IsDrawn h tip generation request epoch recovery d =
    elim (Option-cases (map_get (count_cache_key tip generation) h.graph_count_cache)) [
      | inl e ↦ rw (e, begin_count) d
      | inr (total, e) ↦ rw (e, begin_count) d
    ]

show_and_count-IsDrawn :
    (h : History) (p : Refresh) (page : GraphPage)
    → All HasFirstParent page.commits
    → IsDrawn (show_and_count h p page).0
unfolding show_and_count show_page
show_and_count-IsDrawn h p page all_page =
    if-holds IsDrawnResult _ _ _ (begin_count-IsDrawn (show_page h page) _ _ _ _ _ (refl, all_page))
      (refl, all_page)

extend_page-IsDrawn :
    (h : History) (page : GraphPage)
    → All HasFirstParent page.commits
    → IsDrawn h
    → IsDrawn (extend_page h page)
unfolding extend_page
extend_page-IsDrawn h page all_page (drawn, all_shown) =
    let appended = keep (λ c. not (is_present h.graph_commits c.oid)) page.commits in
    (
      ap (λ rows. append_graph rows appended) drawn
          ∙ append_graph-compute_graph h.graph_commits appended all_shown,
      All-append HasFirstParent h.graph_commits appended all_shown
          (All-keep HasFirstParent _ page.commits all_page),
    )

settle_refresh-IsDrawn :
    (h : History) (p : Refresh) (answer : Answer GraphPage) (i : ℕ)
    → IsWellFormed (answers_page i answer)
    → IsDrawn h
    → IsDrawn (settle_refresh h p answer).0
unfolding settle_refresh finish_with
settle_refresh-IsDrawn h p (arrived page) i all_page d =
    finish_graph-IsDrawn _ _ _
      (if-holds IsDrawnResult _ _ _ (show_and_count-IsDrawn h p page all_page) d)
settle_refresh-IsDrawn h p (failed status message) i all_page d =
    if-holds IsDrawnResult _ _ _ d (finish_graph-IsDrawn _ _ _ (if-holds IsDrawn _ _ _ d d))

begin_more-IsDrawn : (h : History) → IsDrawn h → IsDrawn (begin_more h).0
unfolding begin_more
begin_more-IsDrawn h d = if-holds IsDrawnResult _ _ _ d d

settle_more-IsDrawn :
    (h : History) (p : More) (answer : Answer GraphPage) (i : ℕ)
    → IsWellFormed (answers_page i answer)
    → IsDrawn h
    → IsDrawn (settle_more h p answer).0
unfolding settle_more
settle_more-IsDrawn h p (arrived page) i all_page d =
    if-holds IsDrawnResult _ _ _ (finish_graph-IsDrawn h _ _ d) (
      if-holds IsDrawnResult _ _ _
        (refresh_if-IsDrawn false _ _ _ (extend_page-IsDrawn h page all_page d))
        (refresh_if-IsDrawn true h _ _ d))
settle_more-IsDrawn h p (failed status message) i all_page d =
    if-holds IsDrawnResult _ _ _
      (if-holds IsDrawnResult _ _ _ (refresh_if-IsDrawn true h _ _ d)
        (refresh_if-IsDrawn false _ _ _ d))
      (refresh_if-IsDrawn false h _ _ d)

finish_count-IsDrawn : (h : History) (p : Count) → IsDrawn h → IsDrawn (finish_count h p)
unfolding finish_count
finish_count-IsDrawn h p d = if-holds IsDrawn _ _ _ d d

settle_count-IsDrawn :
    (h : History) (p : Count) (answer : Answer GraphCount)
    → IsDrawn h
    → IsDrawn (settle_count h p answer).0
unfolding settle_count
settle_count-IsDrawn h p (arrived count) d = finish_count-IsDrawn _ p (if-holds IsDrawn _ _ _ d d)
settle_count-IsDrawn h p (failed status message) d =
    let finished = finish_count-IsDrawn h p d in
    if-holds IsDrawnResult _ _ _ (begin_refresh-IsDrawn _ _ finished) finished

settle_page-IsDrawn :
    (w : World) (answer : Answer GraphPage) (o : Option (Pending × List Pending)) (i : ℕ)
    → IsWellFormed (answers_page i answer)
    → IsDrawn w.history
    → IsDrawn (settle_page w answer o).history
unfolding settle_page
settle_page-IsDrawn w answer none i ok d = d
settle_page-IsDrawn w answer (some (refreshing p, others)) i ok d =
    settle_refresh-IsDrawn w.history p answer i ok d
settle_page-IsDrawn w answer (some (extending p, others)) i ok d =
    settle_more-IsDrawn w.history p answer i ok d
settle_page-IsDrawn w answer (some (counting p, others)) i ok d = d

settle_total-IsDrawn :
    (w : World) (answer : Answer GraphCount) (o : Option (Pending × List Pending))
    → IsDrawn w.history
    → IsDrawn (settle_total w answer o).history
unfolding settle_total
settle_total-IsDrawn w answer none d = d
settle_total-IsDrawn w answer (some (counting p, others)) d =
    settle_count-IsDrawn w.history p answer d
settle_total-IsDrawn w answer (some (refreshing p, others)) d = d
settle_total-IsDrawn w answer (some (extending p, others)) d = d

step-IsDrawn :
    (w : World) (e : Event) → IsWellFormed e → IsDrawn w.history → IsDrawn (step w e).history
unfolding step invalidate_reads
step-IsDrawn w (asks_refresh recovery) ok d = begin_refresh-IsDrawn w.history recovery d
step-IsDrawn w asks_more ok d = begin_more-IsDrawn w.history d
step-IsDrawn w invalidates ok d = d
step-IsDrawn w (answers_page i answer) ok d = settle_page-IsDrawn w answer _ i ok d
step-IsDrawn w (answers_count i answer) ok d = settle_total-IsDrawn w answer _ d

-- Whatever is asked and answered in whatever order, if no page brings a commit that has the empty text
-- for its first parent, the rows stay the graph of the commits that are shown.
pub run-IsDrawn :
    (w : World) (es : List Event)
    → IsDrawn w.history
    → All IsWellFormed es
    → IsDrawn (run w es).history
unfolding run
run-IsDrawn w [] d all_es = d
run-IsDrawn w (e ∷ es) d (ok, all_es) = run-IsDrawn (step w e) es (step-IsDrawn w e ok d) all_es
