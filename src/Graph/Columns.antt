-- ===== src/Graph/Columns.antt =====
-- The list of freed columns: it names each free column below a mark once, so a claim takes the
-- leftmost free column.
use gitna.Prelude.{
  ℕ, zero, suc, ◌+◌, ◌≤◌, ◌<◌, ◌≡◌, refl, ap, Bool, true, false, ◌&&◌, Option, some, List, [], ◌∷◌,
  ◌++◌, arith, ltb, ◌==◌, if◌then◌else◌, length, Text, max,
}
use gitna.Graph.{
  Lanes, is_null, columns, null_columns, put_lane, smallest, without_first, claim_column,
  first_free_column, bend_lanes,
}
use gitna.Graph.Lanes.{Alike, lane_at, lane_at-put, lane_at_beyond}

abbrev pub count : ℕ → List ℕ → ℕ
count c [] = 0
count c (d ∷ ds) = (if c == d then 1 else 0) + count c ds

abbrev pub one_if : Bool → ℕ
one_if b = if b then 1 else 0

pub count-append : (c : ℕ) (ds es : List ℕ) → count c (ds ++ es) ≡ count c ds + count c es
count-append c [] es = omega arith
count-append c (d ∷ ds) es = omega (arith, count-append c ds es)

count-without_first :
    (c d : ℕ) (ds : List ℕ)
    → 1 ≤ count d ds
    → count c (without_first d ds) + one_if (c == d) ≡ count c ds
unfolding without_first
count-without_first c d [] h = absurd (omega arith)
count-without_first c d (e ∷ es) h = ground (arith, count-without_first c d es)

smallest-le : (m : ℕ) (cs : List ℕ) → smallest m cs ≤ m
unfolding smallest
smallest-le m [] = omega arith
smallest-le m (c ∷ cs) = ground (arith, smallest-le (if ltb c m then c else m) cs)

-- Nothing in the list lies below its smallest member, which is in the list.
smallest_least : (m d : ℕ) (cs : List ℕ) → 1 ≤ count d (m ∷ cs) → smallest m cs ≤ d
unfolding smallest
smallest_least m d [] h = ground arith
smallest_least m d (c ∷ cs) h = ground (
  arith,
  smallest_least (if ltb c m then c else m) d cs,
  smallest-le (if ltb c m then c else m) cs,
)

smallest_in : (m : ℕ) (cs : List ℕ) → 1 ≤ count (smallest m cs) (m ∷ cs)
unfolding smallest
smallest_in m [] = ground arith
smallest_in m (c ∷ cs) = ground (arith, smallest_in (if ltb c m then c else m) cs)

columns_below :
    (p : ℕ → Option Text → Bool) (i c : ℕ) (ls : Lanes) → c < i → count c (columns p i ls) ≡ 0
unfolding columns
columns_below p i c [] h = refl
columns_below p i c (l ∷ ls) h = ground (arith, columns_below p (i + 1) c ls)

-- A column is listed once when its lane is there and passes the test, and otherwise not.
pub columns_from :
    (p : ℕ → Option Text → Bool) (i k c : ℕ) (ls : Lanes)
    → c ≡ i + k
    → count c (columns p i ls) ≡ one_if (ltb k (length ls) && p c (lane_at ls k))
unfolding columns
columns_from p i k c [] e = ground arith
columns_from p i zero c (l ∷ ls) e =
    ground (arith, columns_below p (i + 1) c ls, ap (λ (t : ℕ). p t l) e)
columns_from p i (suc k) c (l ∷ ls) e = ground (arith, columns_from p (i + 1) k c ls)

pub length-put_lane :
    (c : ℕ) (v : Option Text) (ls : Lanes) → length (put_lane c v ls) ≡ max (length ls) (c + 1)
unfolding put_lane
length-put_lane zero v [] = omega arith
length-put_lane (suc c) v [] = omega (arith, length-put_lane c v [])
length-put_lane zero v (l ∷ ls) = omega arith
length-put_lane (suc c) v (l ∷ ls) = omega (arith, length-put_lane c v ls)

pub length-bend_lanes :
    (oid : Text) (node i : ℕ) (ls : Lanes) → length (bend_lanes oid node i ls) ≡ length ls
unfolding bend_lanes
length-bend_lanes oid node i [] = refl
length-bend_lanes oid node i (l ∷ ls) = ap suc (length-bend_lanes oid node (i + 1) ls)

-- Below the mark the list names each free column once, and nothing else.
pub record IsFreed (ls : Lanes) (freed : List ℕ) (mark : ℕ) : Type 0 where
  pub within : length ls ≤ mark
  pub listed : (c : ℕ) → count c freed ≡ one_if (ltb c mark && is_null (lane_at ls c))

pub record IsLeastFree (ls : Lanes) (m : ℕ) : Type 0 where
  pub free : is_null (lane_at ls m) ≡ true
  pub least : (c : ℕ) → c < m → is_null (lane_at ls c) ≡ false

beyond_null : (ls : Lanes) (c : ℕ) → length ls ≤ c → is_null (lane_at ls c) ≡ true
beyond_null ls c h = rw (lane_at_beyond ls c h)

pub IsFreed-null_columns : (ls : Lanes) → IsFreed ls (null_columns ls) (length ls)
IsFreed-null_columns ls = record {
  within = omega arith;
  listed = λ c. columns_from (λ _ l. is_null l) 0 c c ls (omega arith);
}

-- A claim takes the leftmost free column.
pub claim_column-IsLeastFree :
    (ls : Lanes) (freed : List ℕ) (mark : ℕ)
    → IsFreed ls freed mark
    → IsLeastFree ls (claim_column ls freed).0
unfolding claim_column
claim_column-IsLeastFree ls [] mark h = record {
  free = beyond_null ls (length ls) (omega arith);
  least = λ c b. ground (arith, h.listed c, h.within);
}
claim_column-IsLeastFree ls (d ∷ ds) mark h = record {
  free = ground (arith, h.listed (smallest d ds), smallest_in d ds);
  least = λ c b.
      ground (arith, h.listed c, h.listed (smallest d ds), smallest_in d ds, smallest_least d c ds);
}

-- Least free columns are found alike in lanes that read alike.
pub IsLeastFree-unique :
    (ls ks : Lanes) (m n : ℕ) → Alike ls ks → IsLeastFree ls m → IsLeastFree ks n → m ≡ n
IsLeastFree-unique ls ks m n a p q = ground (arith, a m, a n, p.free, q.free, p.least n, q.least m)

IsLeastFree-le-length : (ls : Lanes) (m : ℕ) → IsLeastFree ls m → m ≤ length ls
IsLeastFree-le-length ls m p = ground (arith, p.least (length ls), beyond_null ls (length ls))

-- After a claim the list without the claimed column is right for the lanes with the parent in it.
pub claim_column-IsFreed :
    (ls : Lanes) (freed : List ℕ) (mark : ℕ) (t : Text)
    → IsFreed ls freed mark
    → IsFreed
        (put_lane (claim_column ls freed).0 (some t) ls)
        (claim_column ls freed).1
        (max mark ((claim_column ls freed).0 + 1))
unfolding claim_column
claim_column-IsFreed ls [] mark t h = record {
  within = omega (arith, length-put_lane (length ls) (some t) ls, h.within);
  listed = λ c. ground (
    arith,
    h.listed c,
    h.listed (length ls),
    beyond_null ls (length ls),
    lane_at-put (length ls) c (some t) ls,
    h.within,
  );
}
claim_column-IsFreed ls (d ∷ ds) mark t h =
    let m = smallest d ds in
    record {
      within = omega (arith, length-put_lane m (some t) ls, h.within);
      listed = λ c. ground (
        arith,
        h.listed c,
        h.listed m,
        smallest_in d ds,
        count-without_first c m (d ∷ ds),
        lane_at-put m c (some t) ls,
      );
    }

abbrev first_or : ℕ → List ℕ → ℕ
first_or d [] = d
first_or d (c ∷ cs) = c

first_of_columns :
    (p : ℕ → Option Text → Bool) (i d : ℕ) (ls : Lanes)
    → d < first_or 0 (columns p i ls)
    → count d (columns p i ls) ≡ 0
unfolding columns
first_of_columns p i d [] h = refl
first_of_columns p i d (l ∷ ls) h =
    ground (arith, columns_below p (i + 1) d ls, first_of_columns p (i + 1) d ls)

first_or-length : (ls : Lanes) → first_free_column ls ≡ first_or (length ls) (null_columns ls)
unfolding first_free_column
first_or-length ls = ground arith

first_or-IsLeastFree :
    (ls : Lanes) (ds : List ℕ) → null_columns ls ≡ ds → IsLeastFree ls (first_or (length ls) ds)
first_or-IsLeastFree ls [] e = record {
  free = beyond_null ls (length ls) (omega arith);
  least = λ c b. ground (arith, (IsFreed-null_columns ls).listed c, ap (count c) e);
}
first_or-IsLeastFree ls (d ∷ ds) e = record {
  free = ground (arith, (IsFreed-null_columns ls).listed d, ap (count d) e);
  least = λ c b. ground (
    arith,
    (IsFreed-null_columns ls).listed c,
    (IsFreed-null_columns ls).listed d,
    ap (count d) e,
    first_of_columns (λ _ l. is_null l) 0 c ls,
    ap (first_or 0) e,
  );
}

-- `freeColumns()[0] ?? lanes.length` is the leftmost free column too.
pub first_free_column-IsLeastFree : (ls : Lanes) → IsLeastFree ls (first_free_column ls)
first_free_column-IsLeastFree ls = rw (first_or-length ls) (first_or-IsLeastFree ls _ refl)

pub claim-eq-first_free :
    (ls : Lanes) (freed : List ℕ) (mark : ℕ)
    → IsFreed ls freed mark
    → (claim_column ls freed).0 ≡ first_free_column ls
claim-eq-first_free ls freed mark h =
    IsLeastFree-unique ls ls _ _ (λ c. refl) (claim_column-IsLeastFree ls freed mark h)
      (first_free_column-IsLeastFree ls)

pub first_free_column-Alike :
    (ls ks : Lanes) → Alike ls ks → first_free_column ls ≡ first_free_column ks
first_free_column-Alike ls ks a =
    IsLeastFree-unique ls ks _ _ a (first_free_column-IsLeastFree ls)
      (first_free_column-IsLeastFree ks)

pub first_free_column-le : (ls : Lanes) → first_free_column ls ≤ length ls
first_free_column-le ls = IsLeastFree-le-length ls _ (first_free_column-IsLeastFree ls)
