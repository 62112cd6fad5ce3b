-- ===== src/Graph.antt =====
-- web/src/lib/graph-lanes.ts: the lane columns of the commit graph, computed at once and page by page.
-- A lane is `none` where the source holds null.
pub mod Lanes
pub mod Columns
pub mod Nodes
pub mod Specification
pub mod Paging
pub mod Widths
mod Examples
use gitna.Prelude.{
  ℕ, zero, suc, ◌+◌, max, Bool, true, false, not, ◌&&◌, Option, none, some, List, [], ◌∷◌, ◌++◌,
  map, ltb, ◌==◌, if◌then◌else◌, coalesce_or, length, get_last?, Text, ◌===◌,
}

pub data RefKind : Type 0 where
  head local_branch remote_branch tag : RefKind

pub record CommitRef : Type 0 where
  pub name : Text
  pub kind : RefKind

pub record GraphCommit : Type 0 where
  pub oid : Text
  pub parents : List Text
  pub subject : Text
  pub author_name : Text
  pub author_time : Text
  pub refs : List CommitRef
  pub branches : Option (List Text)

pub record GraphLane : Type 0 where
  pub column : ℕ
  pub next : Text

pub record GraphRow : Type 0 where
  pub commit : GraphCommit
  pub column : ℕ
  pub total_columns : ℕ
  pub lanes : List GraphLane
  pub outgoing : List ℕ

abbrev pub Lanes : Type 0
Lanes = List (Option Text)

abbrev pub is_null : Option Text → Bool
is_null none = true
is_null (some t) = false

abbrev pub is_lane_of : Text → Option Text → Bool
is_lane_of oid none = false
is_lane_of oid (some t) = t === oid

-- The columns, from `i` on, whose lane passes the test.
pub columns : (ℕ → Option Text → Bool) → ℕ → Lanes → List ℕ
columns p i [] = []
columns p i (l ∷ ls) = let rest = columns p (i + 1) ls in if p i l then i ∷ rest else rest

abbrev pub null_columns : Lanes → List ℕ
null_columns = columns (λ _ l. is_null l) 0

-- `lanes[column] = lane`. Writing past the end leaves a gap that reads as null here; `claim_column`
-- never returns such a column.
pub put_lane : ℕ → Option Text → Lanes → Lanes
put_lane zero v [] = v ∷ []
put_lane (suc c) v [] = none ∷ put_lane c v []
put_lane zero v (l ∷ ls) = v ∷ ls
put_lane (suc c) v (l ∷ ls) = l ∷ put_lane c v ls

-- The smallest of the freed columns, and the list without its first occurrence.
pub smallest : ℕ → List ℕ → ℕ
smallest m [] = m
smallest m (c ∷ cs) = smallest (if ltb c m then c else m) cs

pub without_first : ℕ → List ℕ → List ℕ
without_first c [] = []
without_first c (d ∷ ds) = if c == d then ds else d ∷ without_first c ds

pub claim_column : Lanes → List ℕ → ℕ × List ℕ
claim_column ls [] = (length ls, [])
claim_column ls (c ∷ cs) = let m = smallest c cs in (m, without_first m (c ∷ cs))

-- The first lane that waits for the commit.
pub waiting_column : Text → ℕ → Lanes → Option ℕ
waiting_column oid i [] = none
waiting_column oid i (l ∷ ls) =
    let rest = waiting_column oid (i + 1) ls in if is_lane_of oid l then some i else rest

pub incoming_lanes : ℕ → Lanes → List GraphLane
incoming_lanes i [] = []
incoming_lanes i (none ∷ ls) = incoming_lanes (i + 1) ls
incoming_lanes i (some t ∷ ls) = record { column = i; next = t } ∷ incoming_lanes (i + 1) ls

-- The lanes other than the node's that wait for the commit: they are emptied, and freed.
abbrev bends_in : Text → ℕ → ℕ → Option Text → Bool
bends_in oid node i l = is_lane_of oid l && not (i == node)

pub bend_lanes : Text → ℕ → ℕ → Lanes → Lanes
bend_lanes oid node i [] = []
bend_lanes oid node i (l ∷ ls) =
    (if bends_in oid node i l then none else l) ∷ bend_lanes oid node (i + 1) ls

abbrev bent_columns : Text → ℕ → Lanes → List ℕ
bent_columns oid node = columns (bends_in oid node) 0

pub record Claims : Type 0 where
  pub lanes : Lanes
  pub freed : List ℕ
  pub outgoing : List ℕ

-- `if (first)`: a missing parent and an empty text end the lane.
pub continue_lane : ℕ → List Text → Lanes → List ℕ → Claims
continue_lane node [] ls freed = record {
  lanes = put_lane node none ls;
  freed = freed ++ node ∷ [];
  outgoing = [];
}
continue_lane node ([] ∷ rest) ls freed = record {
  lanes = put_lane node none ls;
  freed = freed ++ node ∷ [];
  outgoing = [];
}
continue_lane node ((c ∷ cs) ∷ rest) ls freed = record {
  lanes = put_lane node (some (c ∷ cs)) ls;
  freed = freed;
  outgoing = node ∷ [];
}

abbrev pub other_parents : List Text → List Text
other_parents [] = []
other_parents (first ∷ rest) = rest

pub claim_parents : List Text → Claims → Claims
claim_parents [] k = k
claim_parents (parent ∷ rest) k =
    let (col, freed) = claim_column k.lanes k.freed in
    claim_parents rest (record {
      lanes = put_lane col (some parent) k.lanes;
      freed = freed;
      outgoing = k.outgoing ++ col ∷ [];
    })

-- `while (lanes.at(-1) === null) lanes.pop()`
pub cons_trimmed : Option Text → Lanes → Lanes
cons_trimmed none [] = []
cons_trimmed (some t) [] = some t ∷ []
cons_trimmed l (k ∷ ks) = l ∷ k ∷ ks

pub trim : Lanes → Lanes
unfolding cons_trimmed
trim [] = []
trim (l ∷ ls) = cons_trimmed l (trim ls)

-- One more than the largest column of the lanes.
pub lanes_width : List GraphLane → ℕ
lanes_width [] = 0
lanes_width (l ∷ ls) = max (l.column + 1) (lanes_width ls)

-- The column of a node: the lane that waits for it, or else a claimed one.
pub node_column : Text → Lanes → List ℕ → ℕ × List ℕ
node_column oid ls freed = elim (waiting_column oid 0 ls) [
  | some column ↦ (column, freed)
  | none ↦ claim_column ls freed
]

pub draw_row : GraphCommit → ℕ → List GraphLane → Claims → GraphRow
draw_row commit node incoming k = record {
  commit = commit;
  column = node;
  total_columns = max (node + 1) (max (lanes_width incoming) (length (trim k.lanes)));
  lanes = incoming;
  outgoing = k.outgoing;
}

-- The lanes, freed columns and outgoing columns when a commit's row is drawn, before trimming.
pub commit_claims : GraphCommit → ℕ → Lanes → List ℕ → Claims
commit_claims commit node ls freed = claim_parents (other_parents commit.parents) (
    continue_lane node commit.parents (bend_lanes commit.oid node 0 ls)
      (freed ++ bent_columns commit.oid node ls))

pub graph_rows : List GraphCommit → Lanes → List ℕ → List GraphRow
graph_rows [] ls freed = []
graph_rows (commit ∷ commits) ls freed =
    let (node, freed') = node_column commit.oid ls freed in
    let k = commit_claims commit node ls freed' in
    draw_row commit node (incoming_lanes 0 ls) k ∷ graph_rows commits (trim k.lanes) k.freed

pub compute_graph_from : List GraphCommit → Lanes → List GraphRow
compute_graph_from commits initial = graph_rows commits initial (null_columns initial)

pub compute_graph : List GraphCommit → List GraphRow
compute_graph commits = compute_graph_from commits []

-- `Array.from({ length }, () => null)` with the lanes of a row written into it.
pub null_lanes : ℕ → Lanes
null_lanes zero = []
null_lanes (suc n) = none ∷ null_lanes n

pub restore_lanes : List GraphLane → Lanes → Lanes
restore_lanes [] ls = ls
restore_lanes (l ∷ rest) ls = restore_lanes rest (put_lane l.column (some l.next) ls)

pub outgoing_width : List ℕ → ℕ
outgoing_width [] = 0
outgoing_width (c ∷ cs) = max (c + 1) (outgoing_width cs)

unfoldable pub head_parent : List Text → Option Text
head_parent [] = none
head_parent (first ∷ rest) = some first

-- `freeColumns()[0] ?? lanes.length`
pub first_free_column : Lanes → ℕ
first_free_column ls = elim (null_columns ls) [ [] ↦ length ls | c ∷ cs ↦ c ]

pub place_parents : List Text → Lanes → Lanes
place_parents [] ls = ls
place_parents (parent ∷ rest) ls =
    place_parents rest (put_lane (first_free_column ls) (some parent) ls)

pub resume_lanes : GraphRow → Lanes
resume_lanes row =
    let count =
      max row.total_columns
        (max (row.column + 1) (max (lanes_width row.lanes) (outgoing_width row.outgoing))) in
    let restored = restore_lanes row.lanes (null_lanes count) in
    let bent = bend_lanes row.commit.oid row.column 0 restored in
    trim (
      place_parents (other_parents row.commit.parents)
        (put_lane row.column (head_parent row.commit.parents) bent))

pub append_graph : List GraphRow → List GraphCommit → List GraphRow
append_graph existing commits = elim (get_last? existing) [
  | none ↦ compute_graph commits
  | some row ↦ elim commits [
    | [] ↦ existing
    | c ∷ cs ↦ existing ++ compute_graph_from (c ∷ cs) (resume_lanes row)
  ]
]
