-- ===== src/Graph/Examples.antt =====
-- The theorems on the commit graph at a merge of two lines.
use gitna.Prelude.{text_dec, ◌≡◌, none, some, List, [], ◌∷◌, ◌++◌, map, All, Text, codes, refl}
use gitna.Graph.{
  head_parent, GraphCommit, compute_graph, compute_graph_from, append_graph, graph_rows, draw_row,
  commit_claims, node_column, trim, claim_parents, continue_lane, bend_lanes, columns,
  waiting_column, claim_column, smallest, without_first, put_lane,
}
use gitna.Graph.Specification.{ideal_rows, compute_graph_from-ideal}
use gitna.Graph.Paging.{HasFirstParent, append_graph-compute_graph}
use gitna.Graph.Widths.{IsWide, compute_graph-IsWide}

abbrev commit_of : Text → List Text → GraphCommit
commit_of oid parents = record {
  oid = oid;
  parents = parents;
  subject = [];
  author_name = [];
  author_time = [];
  refs = [];
  branches = none;
}

abbrev first_page : List GraphCommit
first_page =
    commit_of (codes "d") (codes "c" ∷ codes "b" ∷ []) ∷ commit_of (codes "c") (codes "a" ∷ []) ∷ []

abbrev second_page : List GraphCommit
second_page = commit_of (codes "b") (codes "a" ∷ []) ∷ commit_of (codes "a") [] ∷ []

first_page-HasFirstParent : All HasFirstParent first_page
unfolding head_parent
first_page-HasFirstParent = ((λ e. cc), ((λ e. cc), tt))

append_graph-compute_graph_example :
    append_graph (compute_graph first_page) second_page ≡ compute_graph (first_page ++ second_page)
append_graph-compute_graph_example =
    append_graph-compute_graph first_page second_page first_page-HasFirstParent

compute_graph_from-ideal_example :
    compute_graph_from second_page (some (codes "b") ∷ none ∷ some (codes "a") ∷ [])
    ≡ ideal_rows second_page (some (codes "b") ∷ none ∷ some (codes "a") ∷ [])
compute_graph_from-ideal_example =
    compute_graph_from-ideal second_page (some (codes "b") ∷ none ∷ some (codes "a") ∷ [])

compute_graph-IsWide_example :
    (map (λ r. r.commit) (compute_graph first_page) ≡ first_page)
    × All IsWide (compute_graph first_page)
compute_graph-IsWide_example = compute_graph-IsWide first_page

-- The columns of the nodes of the four rows.
four_nodes : map (λ r. r.column) (compute_graph (first_page ++ second_page)) ≡ 0 ∷ 0 ∷ 1 ∷ 0 ∷ []
unfolding compute_graph compute_graph_from graph_rows draw_row commit_claims node_column trim
    claim_parents continue_lane bend_lanes columns waiting_column claim_column smallest
    without_first put_lane text_dec
four_nodes = refl
