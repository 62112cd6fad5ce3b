-- ===== src/History/Staleness.antt =====
-- Answers to requests of an earlier epoch: what is shown does not change, and nothing new is asked.
use gitna.Prelude.{
  ltb, arith, ℕ, zero, suc, ◌+◌, ◌<◌, ◌≡◌, refl, sym, ap, ◌∙◌, Bool, true, false, not, inl, inr,
  Option, none, some, List, [], ◌∷◌, All, Bool-cases, ◌&&◌, ◌==◌,
}
use mathlib.Core.Path.{subst}
use mathlib.Core.List.{append-nil}
use gitna.History.{
  invalidate_reads, settle_total, started, step, settle_page, put_back, run, take_pending,
  is_conflict, is_controller, is_current_count, is_live_count, finish_count, settle_count,
  is_member, refresh_if, finish_with, is_current, finish_graph, settle_more, settle_refresh,
  History, Event, answers_page, answers_count, asks_refresh, asks_more, invalidates, Answer,
  arrived, failed, Refresh, More, Count, Pending, refreshing, extending, counting, GraphPage,
  GraphCount, World,
}

-- A request that was sent before the current epoch.
abbrev pub IsStale : ℕ → Pending → Type 0
IsStale epoch (refreshing p) = p.epoch < epoch
IsStale epoch (extending p) = p.epoch < epoch
IsStale epoch (counting p) = p.epoch < epoch

abbrev pub IsAnswer : Event → Type 0
IsAnswer (answers_page i answer) = Unit
IsAnswer (answers_count i answer) = Unit
IsAnswer (asks_refresh recovery) = ⊥
IsAnswer asks_more = ⊥
IsAnswer invalidates = ⊥

-- Two histories that differ at most in the controllers they hold.
abbrev pub IsSame : History → History → Type 0
IsSame h k = h ≡ record k {
  graph_controller = h.graph_controller;
  graph_count_controller = h.graph_count_controller;
}

and-false : (t : Bool) → (t && false) ≡ false
and-false true = refl
and-false false = refl

stale_epoch : (m n : ℕ) → m < n → (m == n) ≡ false
stale_epoch m n l = ground (arith, l)

is_current-stale :
    (h : History) (request epoch : ℕ)
    → epoch < h.repository_epoch
    → is_current h request epoch ≡ false
unfolding is_current
is_current-stale h request epoch l =
    rw (stale_epoch epoch h.repository_epoch l) (and-false (request == h.graph_request))

settle_refresh-stale :
    (h : History) (p : Refresh) (answer : Answer GraphPage)
    → p.epoch < h.repository_epoch
    → settle_refresh h p answer ≡ (finish_graph h p.request p.epoch, [])
unfolding settle_refresh finish_with
settle_refresh-stale h p (arrived page) l = rw (is_current-stale h p.request p.epoch l) refl
settle_refresh-stale h p (failed status message) l =
    rw
      (
        is_current-stale h p.request p.epoch l,
        and-false (is_conflict status && ltb p.attempt 2 && not (is_member p.request h.aborted)),
      )
      refl

settle_more-stale :
    (h : History) (p : More) (answer : Answer GraphPage)
    → p.epoch < h.repository_epoch
    → settle_more h p answer ≡ (finish_graph h p.request p.epoch, [])
unfolding settle_more refresh_if
settle_more-stale h p (arrived page) l = rw (is_current-stale h p.request p.epoch l) refl
settle_more-stale h p (failed status message) l = rw (is_current-stale h p.request p.epoch l) refl

finish_graph-stale :
    (h : History) (request epoch : ℕ)
    → epoch < h.repository_epoch
    → IsSame (finish_graph h request epoch) h
unfolding finish_graph
finish_graph-stale h request epoch l = rw (is_current-stale h request epoch l) refl

is_current_count-stale :
    (h : History) (p : Count) → p.epoch < h.repository_epoch → is_current_count h p ≡ false
unfolding is_current_count
is_current_count-stale h p l =
    rw (stale_epoch p.epoch h.repository_epoch l) (and-false (p.request == h.graph_count_request))

is_live_count-stale :
    (h : History) (p : Count) → p.epoch < h.repository_epoch → is_live_count h p ≡ false
unfolding is_live_count
is_live_count-stale h p l =
    rw (is_current_count-stale h p l, and-false (not (is_member p.controller h.aborted_counts)))
      refl

finish_count-stale :
    (h : History) (p : Count) → p.epoch < h.repository_epoch → IsSame (finish_count h p) h
unfolding finish_count
finish_count-stale h p l = elim (Bool-cases (is_controller h.graph_count_controller p.controller)) [
  | inl e ↦ rw (finish_count, e, is_current_count-stale h p l) refl
  | inr e ↦ rw (finish_count, e) refl
]

settle_count-stale :
    (h : History) (p : Count) (answer : Answer GraphCount)
    → p.epoch < h.repository_epoch
    → settle_count h p answer ≡ (finish_count h p, [])
unfolding settle_count
settle_count-stale h p (arrived count) l = rw (is_live_count-stale h p l) refl
settle_count-stale h p (failed status message) l =
    rw (is_live_count-stale h p l, and-false (is_conflict status && ltb p.recovery 2)) refl

Taken : (Pending → Type 0) → Option (Pending × List Pending) → Type 0
Taken P none = Unit
Taken P (some (p, ps)) = P p × All P ps

Taken-put_back :
    (P : Pending → Type 0) (p : Pending) (o : Option (Pending × List Pending))
    → P p
    → Taken P o
    → Taken P (put_back p o)
unfolding put_back Taken
Taken-put_back P p none holds taken = tt
Taken-put_back P p (some (q, qs)) holds (holds_q, all_qs) = (holds_q, (holds, all_qs))

Taken-take_pending :
    (P : Pending → Type 0) (i : ℕ) (ps : List Pending) → All P ps → Taken P (take_pending i ps)
unfolding take_pending Taken
Taken-take_pending P i [] all_ps = tt
Taken-take_pending P zero (p ∷ ps) (holds, all_ps) = (holds, all_ps)
Taken-take_pending P (suc i) (p ∷ ps) (holds, all_ps) =
    Taken-put_back P p (take_pending i ps) holds (Taken-take_pending P i ps all_ps)

-- The history is the same as before, and the requests that are left are stale.
abbrev IsQuiet : History → World → Type 0
IsQuiet h w = IsSame w.history h × All (IsStale h.repository_epoch) w.in_flight

started-IsQuiet :
    (h k : History) (others : List Pending) (r : History × List Pending)
    → r ≡ (k, [])
    → IsSame k h
    → All (IsStale h.repository_epoch) others
    → IsQuiet h (started others r)
started-IsQuiet h k others r e same stale = rw (e, append-nil others) (same, stale)

settle_page-IsQuiet :
    (w : World) (answer : Answer GraphPage) (o : Option (Pending × List Pending))
    → All (IsStale w.history.repository_epoch) w.in_flight
    → Taken (IsStale w.history.repository_epoch) o
    → IsQuiet w.history (settle_page w answer o)
unfolding settle_page Taken
settle_page-IsQuiet w answer none stale taken = (refl, stale)
settle_page-IsQuiet w answer (some (refreshing p, others)) stale (l, left) =
    started-IsQuiet w.history _ others _ (settle_refresh-stale w.history p answer l)
      (finish_graph-stale w.history p.request p.epoch l) left
settle_page-IsQuiet w answer (some (extending p, others)) stale (l, left) =
    started-IsQuiet w.history _ others _ (settle_more-stale w.history p answer l)
      (finish_graph-stale w.history p.request p.epoch l) left
settle_page-IsQuiet w answer (some (counting p, others)) stale taken = (refl, stale)

settle_total-IsQuiet :
    (w : World) (answer : Answer GraphCount) (o : Option (Pending × List Pending))
    → All (IsStale w.history.repository_epoch) w.in_flight
    → Taken (IsStale w.history.repository_epoch) o
    → IsQuiet w.history (settle_total w answer o)
unfolding settle_total Taken
settle_total-IsQuiet w answer none stale taken = (refl, stale)
settle_total-IsQuiet w answer (some (counting p, others)) stale (l, left) =
    started-IsQuiet w.history _ others _ (settle_count-stale w.history p answer l)
      (finish_count-stale w.history p l) left
settle_total-IsQuiet w answer (some (refreshing p, others)) stale taken = (refl, stale)
settle_total-IsQuiet w answer (some (extending p, others)) stale taken = (refl, stale)

step-IsQuiet :
    (w : World) (e : Event)
    → All (IsStale w.history.repository_epoch) w.in_flight
    → IsAnswer e
    → IsQuiet w.history (step w e)
unfolding step
step-IsQuiet w (answers_page i answer) stale ok =
    settle_page-IsQuiet w answer _ stale (Taken-take_pending _ i w.in_flight stale)
step-IsQuiet w (answers_count i answer) stale ok =
    settle_total-IsQuiet w answer _ stale (Taken-take_pending _ i w.in_flight stale)
step-IsQuiet w (asks_refresh recovery) stale ok = absurd ok
step-IsQuiet w asks_more stale ok = absurd ok
step-IsQuiet w invalidates stale ok = absurd ok

IsSame-trans : (h k l : History) → IsSame h k → IsSame k l → IsSame h l
IsSame-trans h k l e f =
    e
    ∙ ap {A = History} {B = History}
        (λ x. record x {
          graph_controller = h.graph_controller;
          graph_count_controller = h.graph_count_controller;
        })
        f

run-IsSame :
    (w : World) (es : List Event)
    → All (IsStale w.history.repository_epoch) w.in_flight
    → All IsAnswer es
    → IsSame (run w es).history w.history
unfolding run
run-IsSame w [] stale all_es = refl
run-IsSame w (e ∷ es) stale (ok, all_es) =
    let (same, left) = step-IsQuiet w e stale ok in
    IsSame-trans (run (step w e) es).history (step w e).history w.history
      (run-IsSame (step w e) es
        (subst (λ n. All (IsStale n) (step w e).in_flight) (sym (ap (λ h. h.repository_epoch) same))
          left)
        all_es)
      same

-- A request is sent in the current epoch or an earlier one.
abbrev pub IsSent : ℕ → Pending → Type 0
IsSent epoch p = IsStale (epoch + 1) p

-- Once the reads are invalidated, the answers to the requests that were in flight then, in whatever
-- order and whatever they say, change nothing of the history but the controllers it holds: no commits,
-- rows, totals, errors or loading flags.
pub invalidate_reads-run :
    (w : World) (es : List Event)
    → All (IsSent w.history.repository_epoch) w.in_flight
    → All IsAnswer es
    → IsSame (run (step w invalidates) es).history (invalidate_reads w.history)
unfolding step invalidate_reads
invalidate_reads-run w es sent all_es = run-IsSame (step w invalidates) es sent all_es
