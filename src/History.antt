-- ===== src/History.antt =====
-- web/src/diffshub/gitna/repository.tsx, the loading of the commit graph: readGraph, loadGraphCount and
-- loadMoreGraph. A handler is cut at its `await`: the part before it begins a request, the part after it
-- settles the request with the answer of the server. An abort controller is known by the number of the
-- request that made it. Answers of the server are arguments.
pub mod Rows
pub mod Staleness
mod Examples
use gitna.Prelude.{
  ℕ, zero, suc, ◌+◌, Bool, true, false, not, ◌&&◌, ◌||◌, Option, none, some, List, [], ◌∷◌, ◌++◌,
  map, ltb, ◌==◌, if◌then◌else◌, is_some, length, keep, any_of, Text, ◌===◌, to_text, JsMap,
  map_get, map_set,
}
use gitna.Graph.{GraphCommit, GraphRow, compute_graph, append_graph}

pub data ChangeKind : Type 0 where
  modified added deleted renamed untracked ignored conflicted : ChangeKind

pub record CommitFile : Type 0 where
  pub path : Text
  pub old_path : Option Text
  pub kind : ChangeKind

pub record CommitStats : Type 0 where
  pub files : ℕ
  pub additions : ℕ
  pub deletions : ℕ
  pub binary_files : ℕ

pub record CommitDiffTarget : Type 0 where
  pub from_search : Bool
  pub oid : Text
  pub subject : Text
  pub path : Text
  pub old_path : Option Text
  pub kind : ChangeKind

pub record GraphPage : Type 0 where
  pub commits : List GraphCommit
  pub has_more : Bool
  pub tip : Text
  pub generation : ℕ

pub record GraphCount : Type 0 where
  pub tip : Text
  pub generation : ℕ
  pub total : ℕ

pub record History : Type 0 where
  pub graph_commits : List GraphCommit
  pub graph_rows : List GraphRow
  pub graph_has_more : Bool
  pub graph_tip : Text
  pub graph_generation : ℕ
  pub graph_total : Option ℕ
  pub graph_loading : Bool
  pub graph_error : Option Text
  pub graph_count_loading : Bool
  pub graph_request : ℕ
  pub graph_count_request : ℕ
  pub graph_controller : Option ℕ
  pub graph_count_controller : Option ℕ
  pub aborted : List ℕ
  pub aborted_counts : List ℕ
  pub graph_count_cache : JsMap ℕ
  pub repository_epoch : ℕ
  pub expanded : JsMap Bool
  pub commit_files : JsMap (List CommitFile)
  pub commit_stats : JsMap CommitStats
  pub commit_diff : Option CommitDiffTarget

-- An answer of the server: a value, or an error with the status of an ApiError and its message.
pub data Answer (A : Type 0) : Type 0 where
  arrived : A → Answer A
  failed : Option ℕ → Text → Answer A

pub record Refresh : Type 0 where
  pub request : ℕ
  pub count_request : ℕ
  pub epoch : ℕ
  pub attempt : ℕ
  pub count_recovery : ℕ

pub record More : Type 0 where
  pub request : ℕ
  pub epoch : ℕ
  pub tip : Text
  pub generation : ℕ

pub record Count : Type 0 where
  pub controller : ℕ
  pub tip : Text
  pub generation : ℕ
  pub request : ℕ
  pub epoch : ℕ
  pub recovery : ℕ

-- A request in flight.
pub data Pending : Type 0 where
  refreshing : Refresh → Pending
  extending : More → Pending
  counting : Count → Pending

unfoldable pub is_member : ℕ → List ℕ → Bool
is_member n = any_of (λ m. m == n)

-- `controller?.abort()`
unfoldable pub abort : Option ℕ → List ℕ → List ℕ
abort none ns = ns
abort (some n) ns = n ∷ ns

is_controller : Option ℕ → ℕ → Bool
is_controller none n = false
is_controller (some m) n = m == n

is_conflict : Option ℕ → Bool
is_conflict none = false
is_conflict (some status) = status == 409

count_cache_key : Text → ℕ → Text
count_cache_key tip generation = to_text generation ++ b':' ∷ tip

-- `request === this.graphRequest && epoch === this.repositoryEpoch`
is_current : History → ℕ → ℕ → Bool
is_current h request epoch = request == h.graph_request && epoch == h.repository_epoch

pub begin_refresh : History → ℕ → History × List Pending
begin_refresh h count_recovery =
    let request = h.graph_request + 1 in
    let count_request = h.graph_count_request + 1 in
    (
      record h {
        graph_request = request;
        graph_count_request = count_request;
        aborted = abort h.graph_controller h.aborted;
        aborted_counts = abort h.graph_count_controller h.aborted_counts;
        graph_count_controller = none;
        graph_count_loading = false;
        graph_controller = some request;
        graph_loading = true;
        graph_error = none;
      },
      refreshing (record {
        request = request;
        count_request = count_request;
        epoch = h.repository_epoch;
        attempt = 0;
        count_recovery = count_recovery;
      })
          ∷ [],
    )

is_present : List GraphCommit → Text → Bool
is_present commits oid = any_of (λ c. c.oid === oid) commits

keep_diff : List GraphCommit → Option CommitDiffTarget → Option CommitDiffTarget
keep_diff commits none = none
keep_diff commits (some t) =
    if not t.from_search && not (is_present commits t.oid) then none else some t

-- The first page replaces the history.
pub show_page : History → GraphPage → History
show_page h page = record h {
  graph_commits = page.commits;
  graph_rows = compute_graph page.commits;
  graph_has_more = page.has_more;
  graph_tip = page.tip;
  graph_generation = page.generation;
  graph_total =
      if page.tip === []
      then some 0
      else map_get (count_cache_key page.tip page.generation) h.graph_count_cache;
  expanded = keep (λ e. e.1 && is_present page.commits e.0) h.expanded;
  commit_files = keep (λ e. is_present page.commits e.0) h.commit_files;
  commit_stats = keep (λ e. is_present page.commits e.0) h.commit_stats;
  commit_diff = keep_diff page.commits h.commit_diff;
}

-- `loadGraphCount` up to its `await`: a cached total is shown at once. The controller of a count is
-- known by the number of the count request.
begin_count : History → Text → ℕ → ℕ → ℕ → ℕ → History × List Pending
begin_count h tip generation request epoch recovery =
    elim (map_get (count_cache_key tip generation) h.graph_count_cache) [
      | some total ↦ (record h { graph_total = some total }, [])
      | none ↦ (
        record h { graph_count_controller = some request; graph_count_loading = true },
        counting (record {
          controller = request;
          tip = tip;
          generation = generation;
          request = request;
          epoch = epoch;
          recovery = recovery;
        })
            ∷ [],
      )
    ]

-- `finally` of `readGraph` and of `loadMoreGraph`
finish_graph : History → ℕ → ℕ → History
finish_graph h request epoch = record h {
  graph_controller = if is_controller h.graph_controller request then none else h.graph_controller;
  graph_loading = if is_current h request epoch then false else h.graph_loading;
}

finish_with : ℕ → ℕ → History × List Pending → History × List Pending
finish_with request epoch (h, started) = (finish_graph h request epoch, started)

show_and_count : History → Refresh → GraphPage → History × List Pending
show_and_count h p page =
    let shown = show_page h page in
    if not (page.tip === []) && not (is_some shown.graph_total)
    then begin_count shown page.tip page.generation p.count_request p.epoch p.count_recovery
    else (shown, [])

pub settle_refresh : History → Refresh → Answer GraphPage → History × List Pending
settle_refresh h p (arrived page) =
    finish_with p.request p.epoch
      (if is_current h p.request p.epoch then show_and_count h p page else (h, []))
settle_refresh h p (failed status message) =
    if is_conflict status
      && ltb p.attempt 2
      && not (is_member p.request h.aborted)
      && is_current h p.request p.epoch
    then (h, refreshing (record p { attempt = p.attempt + 1 }) ∷ [])
    else (
      finish_graph
          (if is_current h p.request p.epoch && not (is_member p.request h.aborted)
            then record h { graph_error = some message }
            else h)
          p.request p.epoch,
      [],
    )

pub begin_more : History → History × List Pending
begin_more h =
    if h.graph_loading || not h.graph_has_more || h.graph_tip === []
    then (h, [])
    else (let request = h.graph_request + 1 in
        (
          record h {
            graph_request = request;
            graph_controller = some request;
            graph_loading = true;
          },
          extending (record {
            request = request;
            epoch = h.repository_epoch;
            tip = h.graph_tip;
            generation = h.graph_generation;
          })
              ∷ [],
        ))

pub extend_page : History → GraphPage → History
extend_page h page =
    let appended = keep (λ c. not (is_present h.graph_commits c.oid)) page.commits in
    record h {
      graph_commits = h.graph_commits ++ appended;
      graph_rows = append_graph h.graph_rows appended;
      graph_has_more = page.has_more;
      graph_error = none;
    }

-- The end of `loadMoreGraph`: after the `finally` a changed history is refreshed from its start.
refresh_if : Bool → History → ℕ → ℕ → History × List Pending
refresh_if refresh h request epoch =
    let finished = finish_graph h request epoch in
    if refresh && is_current finished request epoch && not (is_member request finished.aborted)
    then begin_refresh finished 0
    else (finished, [])

pub settle_more : History → More → Answer GraphPage → History × List Pending
settle_more h p (arrived page) =
    if not (is_current h p.request p.epoch)
    then (finish_graph h p.request p.epoch, [])
    else if page.tip === p.tip && page.generation == p.generation
    then refresh_if false (extend_page h page) p.request p.epoch
    else refresh_if true h p.request p.epoch
settle_more h p (failed status message) =
    if is_current h p.request p.epoch && not (is_member p.request h.aborted)
    then (if is_conflict status
        then refresh_if true h p.request p.epoch
        else refresh_if false (record h { graph_error = some message }) p.request p.epoch)
    else refresh_if false h p.request p.epoch

is_current_count : History → Count → Bool
is_current_count h p = p.request == h.graph_count_request && p.epoch == h.repository_epoch

-- The count is still asked for, of the history that is shown.
is_live_count : History → Count → Bool
is_live_count h p =
    not (is_member p.controller h.aborted_counts)
    && is_current_count h p
    && p.tip === h.graph_tip
    && p.generation == h.graph_generation

finish_count : History → Count → History
finish_count h p =
    if is_controller h.graph_count_controller p.controller
    then record h {
      graph_count_controller = none;
      graph_count_loading = if is_current_count h p then false else h.graph_count_loading;
    }
    else h

pub settle_count : History → Count → Answer GraphCount → History × List Pending
settle_count h p (arrived count) = (
  finish_count
      (if is_live_count h p && count.tip === p.tip && count.generation == p.generation
        then record h {
          graph_count_cache =
              map_set (count_cache_key p.tip p.generation) count.total h.graph_count_cache;
          graph_total = some count.total;
        }
        else h)
      p,
  [],
)
settle_count h p (failed status message) =
    let refresh = is_conflict status && ltb p.recovery 2 && is_live_count h p in
    let finished = finish_count h p in
    if refresh
      && is_current_count finished p
      && not (is_member p.controller finished.aborted_counts)
    then begin_refresh finished (p.recovery + 1)
    else (finished, [])

-- What `invalidateReadWork` does to this part of the state: a new epoch, and every request is stale.
unfoldable pub invalidate_reads : History → History
invalidate_reads h = record h {
  repository_epoch = h.repository_epoch + 1;
  graph_loading = false;
  graph_count_loading = false;
  graph_error = none;
  graph_request = h.graph_request + 1;
  graph_count_request = h.graph_count_request + 1;
  aborted = abort h.graph_controller h.aborted;
  aborted_counts = abort h.graph_count_controller h.aborted_counts;
}

pub record World : Type 0 where
  pub history : History
  pub in_flight : List Pending

-- What can happen next: the user or the client asks, or one of the requests in flight is answered.
pub data Event : Type 0 where
  asks_refresh : ℕ → Event
  asks_more : Event
  invalidates : Event
  answers_page : ℕ → Answer GraphPage → Event
  answers_count : ℕ → Answer GraphCount → Event

put_back : Pending → Option (Pending × List Pending) → Option (Pending × List Pending)
put_back p none = none
put_back p (some (q, qs)) = some (q, p ∷ qs)

-- The request in flight at a place, and the others.
take_pending : ℕ → List Pending → Option (Pending × List Pending)
take_pending i [] = none
take_pending zero (p ∷ ps) = some (p, ps)
take_pending (suc i) (p ∷ ps) = put_back p (take_pending i ps)

abbrev started : List Pending → History × List Pending → World
started others (h, new_ones) = record { history = h; in_flight = others ++ new_ones }

settle_page : World → Answer GraphPage → Option (Pending × List Pending) → World
settle_page w answer none = w
settle_page w answer (some (refreshing p, others)) =
    started others (settle_refresh w.history p answer)
settle_page w answer (some (extending p, others)) = started others (settle_more w.history p answer)
settle_page w answer (some (counting p, others)) = w

settle_total : World → Answer GraphCount → Option (Pending × List Pending) → World
settle_total w answer none = w
settle_total w answer (some (counting p, others)) = started others (settle_count w.history p answer)
settle_total w answer (some (refreshing p, others)) = w
settle_total w answer (some (extending p, others)) = w

pub step : World → Event → World
step w (asks_refresh recovery) = started w.in_flight (begin_refresh w.history recovery)
step w asks_more = started w.in_flight (begin_more w.history)
step w invalidates = record w { history = invalidate_reads w.history }
step w (answers_page i answer) = settle_page w answer (take_pending i w.in_flight)
step w (answers_count i answer) = settle_total w answer (take_pending i w.in_flight)

pub run : World → List Event → World
run w [] = w
run w (e ∷ es) = run (step w e) es
