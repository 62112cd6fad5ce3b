-- ===== src/Graph/Specification.antt =====
-- The graph without a list of freed columns: every claim takes the leftmost free column.
use gitna.Prelude.{
  ℕ, ◌≡◌, refl, Option, none, some, List, [], ◌∷◌, ◌++◌, Text, length, Option-cases, inl, inr,
}
use gitna.Graph.{
  Lanes, GraphCommit, GraphRow, put_lane, bend_lanes, bent_columns, waiting_column, node_column,
  continue_lane, trim, first_free_column, commit_claims, other_parents, draw_row, graph_rows,
  incoming_lanes, compute_graph_from, null_columns,
}
use gitna.Graph.Columns.{IsFreed, IsFreed-null_columns, claim-eq-first_free}
use gitna.Graph.Nodes.{ideal_parents, commit_claims-ideal, node_column-IsClaimed}

unfoldable pub ideal_node : Text → Lanes → ℕ
ideal_node oid ls = elim (waiting_column oid 0 ls) [
  | some column ↦ column
  | none ↦ first_free_column ls
]

-- The lane of the first parent, and the column that continues below the node.
abbrev pub first_lane : List Text → Option Text
first_lane [] = none
first_lane ([] ∷ rest) = none
first_lane ((c ∷ cs) ∷ rest) = some (c ∷ cs)

abbrev pub first_outgoing : ℕ → List Text → List ℕ
first_outgoing node [] = []
first_outgoing node ([] ∷ rest) = []
first_outgoing node ((c ∷ cs) ∷ rest) = node ∷ []

unfoldable pub ideal_claims : GraphCommit → ℕ → Lanes → Lanes × List ℕ
ideal_claims commit node ls =
    ideal_parents (other_parents commit.parents)
      (put_lane node (first_lane commit.parents) (bend_lanes commit.oid node 0 ls))
      (first_outgoing node commit.parents)

unfoldable pub ideal_row : GraphCommit → Lanes → GraphRow
ideal_row commit ls =
    let node = ideal_node commit.oid ls in
    let (after, outgoing) = ideal_claims commit node ls in
    draw_row commit node (incoming_lanes 0 ls)
      (record { lanes = after; freed = []; outgoing = outgoing })

unfoldable pub ideal_lanes : GraphCommit → Lanes → Lanes
ideal_lanes commit ls = trim (ideal_claims commit (ideal_node commit.oid ls) ls).0

unfoldable pub ideal_rows : List GraphCommit → Lanes → List GraphRow
ideal_rows [] ls = []
ideal_rows (commit ∷ commits) ls = ideal_row commit ls ∷ ideal_rows commits (ideal_lanes commit ls)

continue_lane_parts :
    (node : ℕ) (parents : List Text) (ls : Lanes) (freed : List ℕ)
    → let k = continue_lane node parents ls freed in
      (k.lanes ≡ put_lane node (first_lane parents) ls) × (k.outgoing ≡ first_outgoing node parents)
unfolding continue_lane
continue_lane_parts node [] ls freed = (refl, refl)
continue_lane_parts node ([] ∷ rest) ls freed = (refl, refl)
continue_lane_parts node ((c ∷ cs) ∷ rest) ls freed = (refl, refl)

node_column-ideal :
    (oid : Text) (ls : Lanes) (freed : List ℕ) (mark : ℕ)
    → IsFreed ls freed mark
    → (node_column oid ls freed).0 ≡ ideal_node oid ls
unfolding node_column ideal_node
node_column-ideal oid ls freed mark h = elim (Option-cases (waiting_column oid 0 ls)) [
  | inl e ↦ rw (e, node_column, ideal_node) (claim-eq-first_free ls freed mark h)
  | inr (c, e) ↦ rw (e, node_column, ideal_node)
]

commit_claims-eq :
    (commit : GraphCommit) (ls : Lanes) (freed : List ℕ) (mark : ℕ)
    → IsFreed ls freed mark
    → let (node, freed') = node_column commit.oid ls freed in
      let r = commit_claims commit node ls freed' in
      ((r.lanes, r.outgoing) ≡ ideal_claims commit (ideal_node commit.oid ls) ls)
      × (m : ℕ) × IsFreed (trim r.lanes) r.freed m
unfolding ideal_claims
commit_claims-eq commit ls freed mark h =
    let (node, freed') = node_column commit.oid ls freed in
    let (e, m, f) =
      commit_claims-ideal commit ls freed' node _
        (node_column-IsClaimed commit.oid ls freed mark h) in
    let parts =
      continue_lane_parts node commit.parents (bend_lanes commit.oid node 0 ls)
        (freed' ++ bent_columns commit.oid node ls) in
    (rw (← node_column-ideal commit.oid ls freed mark h, ← parts.0, ← parts.1) e, m, f)

-- With the right list of freed columns, every row is the one of leftmost free columns.
graph_rows-ideal :
    (commits : List GraphCommit) (ls : Lanes) (freed : List ℕ) (mark : ℕ)
    → IsFreed ls freed mark
    → graph_rows commits ls freed ≡ ideal_rows commits ls
unfolding graph_rows ideal_rows ideal_row ideal_lanes draw_row
graph_rows-ideal [] ls freed mark h = refl
graph_rows-ideal (commit ∷ commits) ls freed mark h =
    let (e, m, f) = commit_claims-eq commit ls freed mark h in
    let n = node_column-ideal commit.oid ls freed mark h in
    cc (e, n, graph_rows-ideal commits _ _ m f)

-- From any lanes, the rows computed with a list of freed columns are those in which each claim takes
-- the leftmost column that is free at the time.
pub compute_graph_from-ideal :
    (commits : List GraphCommit) (ls : Lanes)
    → compute_graph_from commits ls ≡ ideal_rows commits ls
unfolding compute_graph_from
compute_graph_from-ideal commits ls =
    graph_rows-ideal commits ls (null_columns ls) (length ls) (IsFreed-null_columns ls)
