-- ===== src/Graph/Widths.antt =====
-- The rows of a graph: one for each commit, wide enough for all that is drawn in it.
use gitna.Prelude.{
  ℕ, ◌≤◌, ◌<◌, ◌≡◌, refl, ap, some, List, [], ◌∷◌, ◌++◌, map, arith, Text, length, All, false,
}
use gitna.Graph.{
  Lanes, GraphCommit, GraphLane, GraphRow, is_null, put_lane, bend_lanes, trim, first_free_column,
  other_parents, draw_row, incoming_lanes, compute_graph, lanes_width,
}
use gitna.Graph.Lanes.{lane_at, lane_at-put, lane_at-trim}
use gitna.Graph.Nodes.{ideal_parents, below_length}
use gitna.Graph.Paging.{compute_graph-ideal}
use gitna.Graph.Specification.{
  ideal_node, ideal_claims, ideal_row, ideal_lanes, ideal_rows, first_lane, first_outgoing,
}

-- The node, every incoming lane and every outgoing line stand on columns of the row.
pub record IsWide (row : GraphRow) : Type 0 where
  pub node_fits : row.column < row.total_columns
  pub lanes_fit : All (λ l. l.column < row.total_columns) row.lanes
  pub outgoing_fit : All (λ c. c < row.total_columns) row.outgoing

lanes_width-All : (w : ℕ) (ls : List GraphLane) → lanes_width ls ≤ w → All (λ l. l.column < w) ls
unfolding lanes_width
lanes_width-All w [] h = tt
lanes_width-All w (l ∷ ls) h = (omega arith, lanes_width-All w ls (omega arith))

abbrev Occupied : Lanes → ℕ → Type 0
Occupied ls c = is_null (lane_at ls c) ≡ false

Occupied-put :
    (ls : Lanes) (c d : ℕ) (t : Text) → Occupied ls d → Occupied (put_lane c (some t) ls) d
Occupied-put ls c d t h = ground (arith, lane_at-put c d (some t) ls)

Occupied-put_self : (ls : Lanes) (c : ℕ) (t : Text) → Occupied (put_lane c (some t) ls) c
Occupied-put_self ls c t = ground (arith, lane_at-put c c (some t) ls)

All-Occupied-put :
    (ls : Lanes) (c : ℕ) (t : Text) (ds : List ℕ)
    → All (Occupied ls) ds
    → All (Occupied (put_lane c (some t) ls)) (ds ++ c ∷ [])
All-Occupied-put ls c t [] h = (Occupied-put_self ls c t, tt)
All-Occupied-put ls c t (d ∷ ds) h = (Occupied-put ls c d t h.0, All-Occupied-put ls c t ds h.1)

ideal_parents-Occupied :
    (parents : List Text) (ls : Lanes) (outgoing : List ℕ)
    → All (Occupied ls) outgoing
    → let r = ideal_parents parents ls outgoing in All (Occupied r.0) r.1
unfolding ideal_parents
ideal_parents-Occupied [] ls outgoing h = h
ideal_parents-Occupied (parent ∷ rest) ls outgoing h =
    ideal_parents-Occupied rest _ _ (All-Occupied-put ls (first_free_column ls) parent outgoing h)

first_outgoing-Occupied :
    (node : ℕ) (parents : List Text) (ls : Lanes)
    → All (Occupied (put_lane node (first_lane parents) ls)) (first_outgoing node parents)
first_outgoing-Occupied node [] ls = tt
first_outgoing-Occupied node ([] ∷ rest) ls = tt
first_outgoing-Occupied node ((c ∷ cs) ∷ rest) ls = (Occupied-put_self ls node (c ∷ cs), tt)

All-Occupied-trim :
    (w : ℕ) (ls : Lanes) (ds : List ℕ)
    → length (trim ls) ≤ w
    → All (Occupied ls) ds
    → All (λ c. c < w) ds
All-Occupied-trim w ls [] b h = tt
All-Occupied-trim w ls (d ∷ ds) b h = (
  omega (arith, below_length (trim ls) d (rw (lane_at-trim ls d) h.0)),
  All-Occupied-trim w ls ds b h.1,
)

ideal_row-IsWide : (commit : GraphCommit) (ls : Lanes) → IsWide (ideal_row commit ls)
unfolding ideal_row draw_row ideal_claims
ideal_row-IsWide commit ls =
    let node = ideal_node commit.oid ls in
    let bent = bend_lanes commit.oid node 0 ls in
    record {
      node_fits = omega arith;
      lanes_fit = lanes_width-All _ (incoming_lanes 0 ls) (omega arith);
      outgoing_fit = All-Occupied-trim _ (ideal_claims commit node ls).0 _ (omega arith) (
          ideal_parents-Occupied (other_parents commit.parents) _ _
            (first_outgoing-Occupied node commit.parents bent));
    }

ideal_rows-IsWide : (commits : List GraphCommit) (ls : Lanes) → All IsWide (ideal_rows commits ls)
unfolding ideal_rows
ideal_rows-IsWide [] ls = tt
ideal_rows-IsWide (c ∷ cs) ls = (ideal_row-IsWide c ls, ideal_rows-IsWide cs (ideal_lanes c ls))

commits-ideal_rows :
    (commits : List GraphCommit) (ls : Lanes)
    → map (λ r. r.commit) (ideal_rows commits ls) ≡ commits
unfolding ideal_rows ideal_row draw_row
commits-ideal_rows [] ls = refl
commits-ideal_rows (c ∷ cs) ls = ap (◌∷◌ c) (commits-ideal_rows cs (ideal_lanes c ls))

-- A graph has one row for each commit, in the order of the commits, and in each row the node, the
-- incoming lanes and the outgoing lines all stand on columns below the row's number of columns.
pub compute_graph-IsWide :
    (commits : List GraphCommit)
    → (map (λ r. r.commit) (compute_graph commits) ≡ commits) × All IsWide (compute_graph commits)
compute_graph-IsWide commits =
    rw (compute_graph-ideal commits) (commits-ideal_rows commits [], ideal_rows-IsWide commits [])
