-- ===== src/Graph/Nodes.antt =====
-- The freed columns through the drawing of one commit: the node's column is held back until the
-- node's own lane is written.
use native.Mathlib.Nat.{add-zero}
use gitna.Prelude.{
  ◌∙◌, Bool-cases, ℕ, zero, suc, ◌+◌, ◌≤◌, ◌<◌, ◌≡◌, refl, true, false, ◌&&◌, not, Option, none,
  some, List, [], ◌∷◌, ◌++◌, arith, ltb, ◌==◌, length, Text, max, Option-cases, inl, inr,
  if◌then◌else◌,
}
use gitna.Graph.{
  Lanes, GraphCommit, Claims, is_null, is_lane_of, put_lane, claim_column, bend_lanes, bent_columns,
  bends_in, waiting_column, node_column, continue_lane, claim_parents, trim, cons_trimmed,
  first_free_column, commit_claims, other_parents,
}
use gitna.Graph.Lanes.{lane_at, lane_at-put, lane_at-bend, lane_at-trim}
use gitna.Graph.Columns.{
  count, one_if, IsFreed, count-append, columns_from, length-put_lane, length-bend_lanes,
  claim_column-IsFreed, claim-eq-first_free,
}

-- As `IsFreed`, with the column `node` taken out.
pub record IsClaimed (ls : Lanes) (freed : List ℕ) (node mark : ℕ) : Type 0 where
  pub within : length ls ≤ mark
  pub node_within : node < mark
  pub listed :
      (c : ℕ) → count c freed ≡ one_if (ltb c mark && (is_null (lane_at ls c) && not (c == node)))

waiting_found :
    (oid : Text) (i c : ℕ) (ls : Lanes)
    → waiting_column oid i ls ≡ some c
    → (k : ℕ) × (c ≡ i + k) × (is_lane_of oid (lane_at ls k) ≡ true)
unfolding waiting_column
waiting_found oid i c [] h = cc
waiting_found oid i c (l ∷ ls) h = elim (Bool-cases (is_lane_of oid l)) [
  | inl here ↦ (0, ground arith, here)
  | inr later ↦
      let (k, e, w) = waiting_found oid (i + 1) c ls (ground arith) in (suc k, omega arith, w)
]

lane_null : (oid : Text) (l : Option Text) → is_lane_of oid l ≡ true → is_null l ≡ false
lane_null oid l h = ground arith

pub below_length : (ls : Lanes) (c : ℕ) → is_null (lane_at ls c) ≡ false → c < length ls
below_length [] c h = cc
below_length (l ∷ ls) zero h = omega arith
below_length (l ∷ ls) (suc c) h = omega (arith, below_length ls c h)

-- The column of a node, waited for or claimed, is held out of the freed columns.
pub node_column-IsClaimed :
    (oid : Text) (ls : Lanes) (freed : List ℕ) (mark : ℕ)
    → IsFreed ls freed mark
    → let (node, freed') = node_column oid ls freed in
      IsClaimed ls freed' node (max mark (node + 1))
unfolding node_column
node_column-IsClaimed oid ls freed mark h = elim (Option-cases (waiting_column oid 0 ls)) [
  | inl e ↦
      let g = claim_column-IsFreed ls freed mark [] h in
      let m = (claim_column ls freed).0 in
      rw (e, node_column)
        (record {
          within = omega (arith, h.within);
          node_within = omega arith;
          listed = λ c. ground (arith, g.listed c, lane_at-put m c (some []) ls);
        })
  | inr (c, e) ↦
      let (k, s, w) = waiting_found oid 0 c ls e in
      let n = lane_null oid (lane_at ls k) w in
      rw (e, node_column)
        (record {
          within = omega (arith, h.within);
          node_within = omega arith;
          listed = λ d. ground (arith, h.listed d, below_length ls k n, h.within);
        })
]

bend_lanes-IsClaimed :
    (oid : Text) (ls : Lanes) (freed : List ℕ) (node mark : ℕ)
    → IsClaimed ls freed node mark
    → IsClaimed (bend_lanes oid node 0 ls) (freed ++ bent_columns oid node ls) node mark
bend_lanes-IsClaimed oid ls freed node mark h = record {
  within = omega (arith, length-bend_lanes oid node 0 ls, h.within);
  node_within = h.node_within;
  listed = λ c.
      let e = columns_from (bends_in oid node) 0 c c ls (omega arith) in
      let b : lane_at (bend_lanes oid node 0 ls) c
          ≡ (if bends_in oid node c (lane_at ls c) then none else lane_at ls c) =
        lane_at-bend oid node 0 c ls ∙ rw add-zero in
      ground (
        arith,
        h.listed c,
        count-append c freed (bent_columns oid node ls),
        e,
        b,
        below_length ls c,
        h.within,
      );
}

continue_lane-IsFreed :
    (parents : List Text) (ls : Lanes) (freed : List ℕ) (node mark : ℕ)
    → IsClaimed ls freed node mark
    → let k = continue_lane node parents ls freed in IsFreed k.lanes k.freed mark
unfolding continue_lane
continue_lane-IsFreed [] ls freed node mark h = record {
  within = omega (arith, length-put_lane node none ls, h.within, h.node_within);
  listed = λ c. ground (
    arith,
    h.listed c,
    count-append c freed (node ∷ []),
    lane_at-put node c none ls,
    h.node_within,
  );
}
continue_lane-IsFreed ([] ∷ rest) ls freed node mark h = record {
  within = omega (arith, length-put_lane node none ls, h.within, h.node_within);
  listed = λ c. ground (
    arith,
    h.listed c,
    count-append c freed (node ∷ []),
    lane_at-put node c none ls,
    h.node_within,
  );
}
continue_lane-IsFreed ((t ∷ ts) ∷ rest) ls freed node mark h = record {
  within = omega (arith, length-put_lane node (some (t ∷ ts)) ls, h.within, h.node_within);
  listed = λ c. ground (arith, h.listed c, lane_at-put node c (some (t ∷ ts)) ls, h.node_within);
}

pub length-trim-le : (ls : Lanes) → length (trim ls) ≤ length ls
unfolding trim cons_trimmed
length-trim-le [] = omega arith
length-trim-le (l ∷ ls) = ground (arith, length-trim-le ls)

trim-IsFreed :
    (ls : Lanes) (freed : List ℕ) (mark : ℕ) → IsFreed ls freed mark → IsFreed (trim ls) freed mark
trim-IsFreed ls freed mark h = record {
  within = omega (arith, length-trim-le ls, h.within);
  listed = λ c. rw (lane_at-trim ls c) (h.listed c);
}

-- Parents placed with no list of freed columns: each on the leftmost free column.
unfoldable pub ideal_parents : List Text → Lanes → List ℕ → Lanes × List ℕ
ideal_parents [] ls outgoing = (ls, outgoing)
ideal_parents (parent ∷ rest) ls outgoing =
    let col = first_free_column ls in
    ideal_parents rest (put_lane col (some parent) ls) (outgoing ++ col ∷ [])

-- With the right list of freed columns the parents are placed on leftmost free columns, and the list
-- stays right.
pub claim_parents-ideal :
    (parents : List Text) (k : Claims) (mark : ℕ)
    → IsFreed k.lanes k.freed mark
    → let r = claim_parents parents k in
      ((r.lanes, r.outgoing) ≡ ideal_parents parents k.lanes k.outgoing)
      × (m : ℕ) × IsFreed r.lanes r.freed m
unfolding claim_parents ideal_parents
claim_parents-ideal [] k mark h = (refl, mark, h)
claim_parents-ideal (parent ∷ rest) k mark h =
    rw (← claim-eq-first_free k.lanes k.freed mark h)
      (claim_parents-ideal rest _ _ (claim_column-IsFreed k.lanes k.freed mark parent h))

-- When a row is drawn, the freed columns come out right for the trimmed lanes.
pub commit_claims-ideal :
    (commit : GraphCommit) (ls : Lanes) (freed : List ℕ) (node mark : ℕ)
    → IsClaimed ls freed node mark
    → let k =
        continue_lane node commit.parents
          (bend_lanes commit.oid node 0 ls)
          (freed ++ bent_columns commit.oid node ls) in
      let r = commit_claims commit node ls freed in
      ((r.lanes, r.outgoing) ≡ ideal_parents (other_parents commit.parents) k.lanes k.outgoing)
      × (m : ℕ) × IsFreed (trim r.lanes) r.freed m
unfolding commit_claims
commit_claims-ideal commit ls freed node mark h =
    let bent = bend_lanes-IsClaimed commit.oid ls freed node mark h in
    let cont = continue_lane-IsFreed commit.parents _ _ node mark bent in
    let (e, m, f) = claim_parents-ideal (other_parents commit.parents) _ mark cont in
    (e, m, trim-IsFreed _ _ m f)
