-- ===== src/Graph/Paging.antt =====
-- Appending a page to a graph, and the width of its rows.
use mathlib.Core.List.{append-nil}
use gitna.Prelude.{ℕ, ◌≡◌, ◌≢◌, refl, sym, ap, ◌∙◌, some, List, [], ◌∷◌, ◌++◌, Text, get_last?, All}
use gitna.Graph.{
  Lanes, GraphCommit, GraphRow, put_lane, bend_lanes, place_parents, first_free_column,
  other_parents, head_parent, draw_row, compute_graph, compute_graph_from, append_graph,
  resume_lanes,
}
use gitna.Graph.Lanes.{
  Alike, lane_at, put_lane-Alike, bend_lanes-Alike, trim-Alike, restore_lanes-Alike,
}
use gitna.Graph.Columns.{first_free_column-Alike}
use gitna.Graph.Nodes.{ideal_parents}
use gitna.Graph.Specification.{
  ideal_node, ideal_claims, ideal_row, ideal_lanes, ideal_rows, first_lane, first_outgoing,
  compute_graph_from-ideal,
}

ideal_after : List GraphCommit → Lanes → Lanes
ideal_after [] ls = ls
ideal_after (commit ∷ commits) ls = ideal_after commits (ideal_lanes commit ls)

ideal_rows-append :
    (xs ys : List GraphCommit) (ls : Lanes)
    → ideal_rows (xs ++ ys) ls ≡ ideal_rows xs ls ++ ideal_rows ys (ideal_after xs ls)
unfolding ideal_rows ideal_after
ideal_rows-append [] ys ls = refl
ideal_rows-append (x ∷ xs) ys ls =
    ap (◌∷◌ (ideal_row x ls)) (ideal_rows-append xs ys (ideal_lanes x ls))

place_parents-ideal :
    (parents : List Text) (ls : Lanes) (outgoing : List ℕ)
    → place_parents parents ls ≡ (ideal_parents parents ls outgoing).0
unfolding place_parents ideal_parents
place_parents-ideal [] ls outgoing = refl
place_parents-ideal (parent ∷ rest) ls outgoing = place_parents-ideal rest _ _

place_parents-Alike :
    (parents : List Text) (ls ks : Lanes)
    → Alike ls ks
    → Alike (place_parents parents ls) (place_parents parents ks)
unfolding place_parents
place_parents-Alike [] ls ks a = a
place_parents-Alike (parent ∷ rest) ls ks a =
    rw (first_free_column-Alike ls ks a)
      (place_parents-Alike rest _ _ (put_lane-Alike (first_free_column ks) (some parent) ls ks a))

first_lane-head :
    (parents : List Text) → head_parent parents ≢ some [] → head_parent parents ≡ first_lane parents
unfolding head_parent
first_lane-head [] h = refl
first_lane-head ([] ∷ rest) h = absurd (h refl)
first_lane-head ((c ∷ cs) ∷ rest) h = refl

-- A first parent, if there is one, is not the empty text.
abbrev pub HasFirstParent : GraphCommit → Type 0
HasFirstParent commit = head_parent commit.parents ≢ some []

-- The lanes restored from a row are the lanes below it.
resume_lanes-ideal :
    (commit : GraphCommit) (ls : Lanes)
    → HasFirstParent commit
    → resume_lanes (ideal_row commit ls) ≡ ideal_lanes commit ls
unfolding resume_lanes ideal_row ideal_lanes draw_row ideal_claims
resume_lanes-ideal commit ls h =
    let node = ideal_node commit.oid ls in
    trim-Alike _ _ (λ c.
      place_parents-Alike (other_parents commit.parents) _ _
        (put_lane-Alike node (head_parent commit.parents) _ _
          (bend_lanes-Alike commit.oid node _ ls (restore_lanes-Alike _ ls)))
        c
      ∙ ap
          (λ l.
            lane_at
              (place_parents (other_parents commit.parents)
                (put_lane node l (bend_lanes commit.oid node 0 ls)))
              c)
          (first_lane-head commit.parents h)
      ∙ ap (λ ks. lane_at ks c)
          (place_parents-ideal (other_parents commit.parents) _
            (first_outgoing node commit.parents)))

resume_last :
    (x : GraphCommit) (xs : List GraphCommit) (ls : Lanes)
    → All HasFirstParent (x ∷ xs)
    → (row : GraphRow) × (get_last? (ideal_rows (x ∷ xs) ls) ≡ some row)
      × (resume_lanes row ≡ ideal_after (x ∷ xs) ls)
unfolding ideal_rows ideal_after
resume_last x [] ls h = (ideal_row x ls, refl, resume_lanes-ideal x ls h.0)
resume_last x (y ∷ ys) ls h = resume_last y ys (ideal_lanes x ls) h.1

append_graph-nil :
    (existing : List GraphRow) (row : GraphRow)
    → get_last? existing ≡ some row
    → append_graph existing [] ≡ existing
unfolding append_graph
append_graph-nil existing row e = rw (e, append_graph)

append_graph-cons :
    (existing : List GraphRow) (row : GraphRow) (c : GraphCommit) (cs : List GraphCommit)
    → get_last? existing ≡ some row
    → append_graph existing (c ∷ cs) ≡ existing ++ compute_graph_from (c ∷ cs) (resume_lanes row)
unfolding append_graph
append_graph-cons existing row c cs e = rw (e, append_graph)

pub compute_graph-ideal : (xs : List GraphCommit) → compute_graph xs ≡ ideal_rows xs []
unfolding compute_graph
compute_graph-ideal xs = compute_graph_from-ideal xs []

-- When no commit of the first page has the empty text for its first parent, appending a second page to
-- the graph of the first gives the graph of both pages computed at once.
pub append_graph-compute_graph :
    (xs ys : List GraphCommit)
    → All HasFirstParent xs
    → append_graph (compute_graph xs) ys ≡ compute_graph (xs ++ ys)
append_graph-compute_graph [] ys h =
    rw (compute_graph-ideal []) (unfold append_graph ideal_rows in refl)
append_graph-compute_graph (x ∷ xs) [] h =
    let (row, e, r) = resume_last x xs [] h in
    rw (compute_graph-ideal (x ∷ xs), append-nil (x ∷ xs))
      (append_graph-nil (ideal_rows (x ∷ xs) []) row e ∙ sym (compute_graph-ideal (x ∷ xs)))
append_graph-compute_graph (x ∷ xs) (y ∷ ys) h =
    let (row, e, r) = resume_last x xs [] h in
    rw (compute_graph-ideal (x ∷ xs), compute_graph-ideal ((x ∷ xs) ++ y ∷ ys))
      (append_graph-cons (ideal_rows (x ∷ xs) []) row y ys e
        ∙ ap (◌++◌ (ideal_rows (x ∷ xs) []))
            (compute_graph_from-ideal (y ∷ ys) (resume_lanes row) ∙ ap (ideal_rows (y ∷ ys)) r)
        ∙ sym (ideal_rows-append (x ∷ xs) (y ∷ ys) []))
