-- ===== src/Reads/Examples.antt =====
-- Runs of the reads on small inputs.
use gitna.Prelude.{◌⊎◌, ℕ, ◌≡◌, true, false, none, List, [], ◌∷◌, codes, arith}
use gitna.History.{Answer, arrived, failed}
use gitna.Reads.{Resource, Token, begin_read, settle_read, settle_branches, succeeded_outcome}
use gitna.Reads.Latest.{settle_all, settle_read-begin_read, settle_branches-together}

abbrev old_tags : Resource (List ℕ)
old_tags = record {
  value = 7 ∷ [];
  loading = true;
  error = none;
  request = 4;
  repository_epoch = 1;
}

abbrev late_tags : List (Token × Answer (List ℕ))
late_tags =
    (record { request = 3; epoch = 1 }, arrived [])
    ∷ (record { request = 4; epoch = 1 }, failed none [])
    ∷ []

settle_read-begin_read_example :
    settle_read
      (codes "tags")
      (settle_all (codes "tags") (begin_read old_tags).0 late_tags)
      (begin_read old_tags).1
      (arrived (8 ∷ []))
    ≡ (
      record { value = 8 ∷ []; loading = false; error = none; request = 5; repository_epoch = 1 },
      succeeded_outcome,
    )
settle_read-begin_read_example =
    settle_read-begin_read (codes "tags") old_tags late_tags (8 ∷ [])
      (omega arith, (omega arith, tt))

abbrev old_branches : Resource (ℕ × ℕ)
old_branches = record {
  value = (1, 2);
  loading = true;
  error = none;
  request = 1;
  repository_epoch = 0;
}

abbrev branches_token : Token
branches_token = record { request = 1; epoch = 0 }

abbrev new_branches : Answer ℕ
new_branches = arrived 3

abbrev new_remotes : Answer ℕ
new_remotes = arrived 4

settle_branches-together_example :
    ((settle_branches old_branches branches_token new_branches new_remotes).0.value ≡ (1, 2))
    ⊎ ((a : ℕ) × (b : ℕ) × (new_branches ≡ arrived a)
        × (new_remotes ≡ arrived b)
        × ((settle_branches old_branches branches_token new_branches new_remotes).0.value ≡ (a, b)))
settle_branches-together_example =
    settle_branches-together old_branches branches_token new_branches new_remotes
