-- ===== src/Reads/Latest.antt =====
-- Of the requests of a read only the latest counts.
use gitna.Prelude.{
  ℕ, ◌+◌, ◌≤◌, ◌≡◌, refl, true, false, none, List, [], ◌∷◌, ◌==◌, Text, All, arith, inl, inr, ◌⊎◌,
  Bool-cases,
}
use gitna.History.{Answer, arrived, failed}
use gitna.Reads.{
  settle_pair, Resource, Token, begin_read, is_latest, settle_read, settle_branches,
  succeeded_outcome,
}

earlier : (m n : ℕ) → m ≤ n → (m == n + 1) ≡ false
earlier m n l = ground (arith, l)

same_number : (n : ℕ) → (n == n) ≡ true
same_number n = ground arith

module _ {A : Type 0} where
  -- Answers to requests, in the order in which they come.
  pub settle_all : Text → Resource A → List (Token × Answer A) → Resource A
  settle_all source r [] = r
  settle_all source r ((t, answer) ∷ rest) =
      settle_all source (settle_read source r t answer).0 rest

  abbrev pub IsEarlier : Resource A → Token × Answer A → Type 0
  IsEarlier r (t, answer) = t.request ≤ r.request

  settle_read-earlier :
      (source : Text) (r : Resource A) (t : Token) (answer : Answer A)
      → t.request ≤ r.request
      → (settle_read source (begin_read r).0 t answer).0 ≡ (begin_read r).0
  unfolding settle_read begin_read is_latest
  settle_read-earlier source r t (arrived value) l = rw (earlier t.request r.request l) refl
  settle_read-earlier source r t (failed status message) l = rw (earlier t.request r.request l) refl

  settle_all-earlier :
      (source : Text) (r : Resource A) (answers : List (Token × Answer A))
      → All (IsEarlier r) answers
      → settle_all source (begin_read r).0 answers ≡ (begin_read r).0
  unfolding settle_all
  settle_all-earlier source r [] all_earlier = refl
  settle_all-earlier source r ((t, answer) ∷ rest) (l, all_earlier) =
      rw (settle_read-earlier source r t answer l) (settle_all-earlier source r rest all_earlier)

  -- After a read begins, the answers to earlier requests change nothing, whatever they are and however
  -- many come first, and then the answer to this request is shown and ends the loading.
  pub settle_read-begin_read :
      (source : Text) (r : Resource A) (answers : List (Token × Answer A)) (value : A)
      → All (IsEarlier r) answers
      → settle_read source
          (settle_all source (begin_read r).0 answers)
          (begin_read r).1
          (arrived value)
        ≡ (
          record r { value = value; loading = false; error = none; request = r.request + 1 },
          succeeded_outcome,
        )
  unfolding settle_read begin_read is_latest
  settle_read-begin_read source r answers value all_earlier =
      rw
        (
          settle_all-earlier source r answers all_earlier,
          same_number (r.request + 1),
          same_number r.repository_epoch,
        )
        refl

module _ {A B : Type 0} where
  pair_together :
      (r : Resource (A × B)) (branches : Answer A) (remotes : Answer B)
      → ((settle_pair r branches remotes).0.value ≡ r.value)
        ⊎ ((a : A) × (b : B) × (branches ≡ arrived a)
            × (remotes ≡ arrived b)
            × ((settle_pair r branches remotes).0.value ≡ (a, b)))
  unfolding settle_pair
  pair_together r (failed status message) remotes = inl refl
  pair_together r (arrived a) (failed status message) = inl refl
  pair_together r (arrived a) (arrived b) = inr (a, b, refl, refl, refl)

  -- The branches and the remotes change together: both are those of the answers, or both stay.
  pub settle_branches-together :
      (r : Resource (A × B)) (t : Token) (branches : Answer A) (remotes : Answer B)
      → ((settle_branches r t branches remotes).0.value ≡ r.value)
        ⊎ ((a : A) × (b : B) × (branches ≡ arrived a)
            × (remotes ≡ arrived b)
            × ((settle_branches r t branches remotes).0.value ≡ (a, b)))
  unfolding settle_branches settle_pair
  settle_branches-together r t branches remotes = elim (Bool-cases (is_latest r t)) [
    | inr e ↦ inl (rw e refl)
    | inl e ↦ rw e (pair_together r branches remotes)
  ]
