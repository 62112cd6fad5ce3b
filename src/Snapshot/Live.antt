-- ===== src/Snapshot/Live.antt =====
-- Reads of the snapshot that are of the current epoch, and the promise that one of them has.
use gitna.Prelude.{
  ℕ, zero, suc, ◌+◌, ◌≤◌, ◌<◌, ◌≡◌, refl, ap, Bool, true, false, Option, none, some, List, [], ◌∷◌,
  ◌++◌, keep, All, arith, inl, inr, Bool-cases, ◌&&◌, ◌==◌,
}
use mathlib.Core.Path.{subst}
use gitna.Snapshot.{
  put_read_back, waiting_of, take_read, SnapshotState, SnapshotRead, SnapshotWorld, Progress,
  epoch_of,
}

abbrev pub is_live : ℕ → SnapshotRead → Bool
is_live epoch r = r.epoch == epoch && r.operation_epoch == epoch

abbrev pub live : ℕ → List SnapshotRead → List SnapshotRead
live epoch reads = keep (is_live epoch) reads

-- The promise is that of the live read; without a live read there is no promise and nothing is wanted.
abbrev pub Serves : Option ℕ → Bool → List SnapshotRead → Type 0
Serves promise again [] = (promise ≡ none) × (again ≡ false)
Serves promise again (r ∷ []) = promise ≡ some r.number
Serves promise again (r ∷ q ∷ rest) = ⊥

abbrev pub is_promised : Option ℕ → ℕ → Bool
is_promised none n = false
is_promised (some m) n = m == n

-- A read is of the current epoch or an earlier one, its number was given, and a read that has the
-- promise is live.
abbrev pub IsKnown : ℕ → Option ℕ → ℕ → SnapshotRead → Type 0
IsKnown epoch promise next r =
    (r.epoch ≤ epoch)
    × (r.number < next)
    × (is_promised promise r.number ≡ true → is_live epoch r ≡ true)

abbrev pub AllKnown : SnapshotState → List SnapshotRead → Type 0
AllKnown s reads = All (IsKnown (epoch_of s) s.refresh_promise s.next_operation) reads

unfoldable pub IsServed : SnapshotWorld → Type 0
IsServed w =
    Serves w.state.refresh_promise w.state.refresh_again (live (epoch_of w.state) w.reads)
    × AllKnown w.state w.reads

-- Nothing is live among reads of earlier epochs.
pub live-stale :
    (epoch : ℕ) (reads : List SnapshotRead)
    → All (λ r. r.epoch < epoch) reads
    → live epoch reads ≡ []
live-stale epoch [] all_stale = refl
live-stale epoch (r ∷ reads) (l, all_stale) = ground (arith, l, live-stale epoch reads all_stale)

pub known-stale :
    (epoch : ℕ) (promise : Option ℕ) (next : ℕ) (reads : List SnapshotRead)
    → All (IsKnown epoch promise next) reads
    → All (λ r. r.epoch < epoch + 1) reads
known-stale epoch promise next [] known = tt
known-stale epoch promise next (r ∷ reads) (k, known) =
    (omega (arith, k.0), known-stale epoch promise next reads known)

-- Reads stay known when the promise is dropped, when the epoch moves on, and when numbers are given.
pub IsKnown-dropped :
    (epoch later next more : ℕ) (promise : Option ℕ) (reads : List SnapshotRead)
    → epoch ≤ later
    → next ≤ more
    → All (IsKnown epoch promise next) reads
    → All (IsKnown later none more) reads
IsKnown-dropped epoch later next more promise [] l m known = tt
IsKnown-dropped epoch later next more promise (r ∷ reads) l m (k, known) = (
  (omega (arith, k.0), omega (arith, k.1), λ e. cc),
  IsKnown-dropped epoch later next more promise reads l m known,
)

pub IsKnown-fresh :
    (epoch next : ℕ) (promise : Option ℕ) (reads : List SnapshotRead)
    → All (IsKnown epoch promise next) reads
    → All (IsKnown epoch (some next) (next + 1)) reads
IsKnown-fresh epoch next promise [] known = tt
IsKnown-fresh epoch next promise (r ∷ reads) (k, known) = (
  (k.0, omega (arith, k.1), λ e. ground (arith, e, k.1)),
  IsKnown-fresh epoch next promise reads known,
)

-- A read that is taken from the reads, and the others.
abbrev pub IsTaken : ℕ → List SnapshotRead → SnapshotRead → List SnapshotRead → Type 0
IsTaken epoch reads r rest =
    (is_live epoch r ≡ false → live epoch rest ≡ live epoch reads)
    × (is_live epoch r ≡ true
        → (promise : Option ℕ) (again : Bool) → Serves promise again (live epoch reads)
        → (promise ≡ some r.number) × (live epoch rest ≡ []))

abbrev pub TakenParts :
    ℕ
    → (SnapshotRead → Type 0)
    → List SnapshotRead
    → Option (SnapshotRead × List SnapshotRead)
    → Type 0
TakenParts epoch P reads none = Unit
TakenParts epoch P reads (some (r, rest)) = IsTaken epoch reads r rest × P r × All P rest

pub live-cons :
    (epoch : ℕ) (r : SnapshotRead) (rest : List SnapshotRead)
    → is_live epoch r ≡ true
    → live epoch (r ∷ rest) ≡ r ∷ live epoch rest
live-cons epoch r rest e = rw e refl

pub live-skip :
    (epoch : ℕ) (r : SnapshotRead) (rest : List SnapshotRead)
    → is_live epoch r ≡ false
    → live epoch (r ∷ rest) ≡ live epoch rest
live-skip epoch r rest e = rw e refl

pub none-ne-some : {n : ℕ} → ◌≡◌ {A = Option ℕ} none (some n) → ⊥
none-ne-some e = cc

pub Serves-cons :
    (promise : Option ℕ) (again : Bool) (r : SnapshotRead) (reads : List SnapshotRead)
    → Serves promise again (r ∷ reads)
    → (promise ≡ some r.number) × (reads ≡ [])
Serves-cons promise again r [] served = (served, refl)
Serves-cons promise again r (q ∷ reads) served = absurd served

pub here-IsTaken :
    (epoch : ℕ) (r : SnapshotRead) (rest : List SnapshotRead) → IsTaken epoch (r ∷ rest) r rest
here-IsTaken epoch r rest = (
  (λ e. rw e refl),
  (λ e promise again served.
      Serves-cons promise again r _
        (subst (Serves promise again) (live-cons epoch r rest e) served)),
)

pub there-IsTaken :
    (epoch : ℕ) (q r : SnapshotRead) (reads rest : List SnapshotRead)
    → IsTaken epoch reads r rest
    → IsTaken epoch (q ∷ reads) r (q ∷ rest)
there-IsTaken epoch q r reads rest (dead, alive) = elim (Bool-cases (is_live epoch q)) [
  | inr f ↦ rw (live-skip epoch q reads f, live-skip epoch q rest f) (dead, alive)
  | inl f ↦
      rw (live-cons epoch q reads f, live-cons epoch q rest f)
        (
          (λ e. ap (◌∷◌ q) (dead e)),
          (λ e promise again served.
              let none_left = (Serves-cons promise again q _ served).1 in
              absurd (none-ne-some (alive e none false (rw none_left (refl, refl))).0)),
        )
]

pub put_back-Parts :
    (epoch : ℕ) (P : SnapshotRead → Type 0) (q : SnapshotRead) (reads : List SnapshotRead)
    (o : Option (SnapshotRead × List SnapshotRead))
    → P q
    → TakenParts epoch P reads o
    → TakenParts epoch P (q ∷ reads) (put_read_back q o)
unfolding put_read_back
put_back-Parts epoch P q reads none holds parts = tt
put_back-Parts epoch P q reads (some (r, rest)) holds (taken, holds_r, all) =
    (there-IsTaken epoch q r reads rest taken, holds_r, (holds, all))

pub take_read-Parts :
    (epoch : ℕ) (P : SnapshotRead → Type 0) (i : ℕ) (reads : List SnapshotRead)
    → All P reads
    → TakenParts epoch P reads (take_read i reads)
unfolding take_read
take_read-Parts epoch P i [] all = tt
take_read-Parts epoch P zero (r ∷ reads) (holds, all) = (here-IsTaken epoch r reads, holds, all)
take_read-Parts epoch P (suc i) (q ∷ reads) (holds, all) =
    put_back-Parts epoch P q reads (take_read i reads) holds (take_read-Parts epoch P i reads all)

pub same_number : (n : ℕ) → (n == n) ≡ true
same_number n = ground arith

abbrev pub world_of : SnapshotState × Progress → List SnapshotRead → SnapshotWorld
world_of (s, progress) rest = record { state = s; reads = waiting_of progress ++ rest }
