-- ===== src/Graph/Lanes.antt =====
-- Lanes read by column: what each operation leaves at a column, and that trimming keeps the reading.
use gitna.Prelude.{
  ℕ, zero, suc, ◌+◌, ◌≤◌, ◌<◌, ◌≡◌, ◌≢◌, refl, sym, ap, ◌∙◌, Option, none, some, [], ◌∷◌, arith,
  ◌==◌, if◌then◌else◌, length, Text, ◌⊎◌,
}
use gitna.Graph.{
  Lanes, put_lane, bend_lanes, bends_in, trim, cons_trimmed, null_lanes, restore_lanes,
  incoming_lanes,
}

-- What stands at a column; past the end, nothing.
abbrev pub lane_at : Lanes → ℕ → Option Text
lane_at [] c = none
lane_at (l ∷ ls) zero = l
lane_at (l ∷ ls) (suc c) = lane_at ls c

pub lane_at-put :
    (c j : ℕ) (v : Option Text) (ls : Lanes)
    → lane_at (put_lane c v ls) j ≡ (if c == j then v else lane_at ls j)
unfolding put_lane
lane_at-put zero zero v [] = ground arith
lane_at-put zero (suc j) v [] = ground arith
lane_at-put (suc c) zero v [] = ground arith
lane_at-put (suc c) (suc j) v [] = lane_at-put c j v [] ∙ ground arith
lane_at-put zero zero v (l ∷ ls) = ground arith
lane_at-put zero (suc j) v (l ∷ ls) = ground arith
lane_at-put (suc c) zero v (l ∷ ls) = ground arith
lane_at-put (suc c) (suc j) v (l ∷ ls) = lane_at-put c j v ls ∙ ground arith

pub lane_at-bend :
    (oid : Text) (node i j : ℕ) (ls : Lanes)
    → lane_at (bend_lanes oid node i ls) j
      ≡ (if bends_in oid node (j + i) (lane_at ls j) then none else lane_at ls j)
unfolding bend_lanes
lane_at-bend oid node i j [] = ground arith
lane_at-bend oid node i zero (l ∷ ls) = ground arith
lane_at-bend oid node i (suc j) (l ∷ ls) = ground (arith, lane_at-bend oid node (i + 1) j ls)

pub lane_at_beyond : (ls : Lanes) (c : ℕ) → length ls ≤ c → lane_at ls c ≡ none
lane_at_beyond [] c h = refl
lane_at_beyond (l ∷ ls) zero h = absurd (omega arith)
lane_at_beyond (l ∷ ls) (suc c) h = lane_at_beyond ls c (omega arith)

lane_at-cons_trimmed :
    (l : Option Text) (ls : Lanes) (c : ℕ) → lane_at (cons_trimmed l ls) c ≡ lane_at (l ∷ ls) c
unfolding cons_trimmed
lane_at-cons_trimmed none [] zero = refl
lane_at-cons_trimmed none [] (suc c) = refl
lane_at-cons_trimmed (some t) [] c = refl
lane_at-cons_trimmed none (k ∷ ks) c = refl
lane_at-cons_trimmed (some t) (k ∷ ks) c = refl

pub lane_at-trim : (ls : Lanes) (c : ℕ) → lane_at (trim ls) c ≡ lane_at ls c
unfolding trim
lane_at-trim [] c = refl
lane_at-trim (l ∷ ls) zero = lane_at-cons_trimmed l (trim ls) zero
lane_at-trim (l ∷ ls) (suc c) = lane_at-cons_trimmed l (trim ls) (suc c) ∙ lane_at-trim ls c

-- Two lists of lanes that read alike.
abbrev pub Alike : Lanes → Lanes → Type 0
Alike ls ks = (c : ℕ) → lane_at ls c ≡ lane_at ks c

trim-null : (ls : Lanes) → Alike [] ls → trim ls ≡ []
unfolding trim cons_trimmed
trim-null [] h = refl
trim-null (none ∷ ls) h = rw (trim-null ls (λ c. h (suc c)), cons_trimmed)
trim-null (some t ∷ ls) h = cc (h 0)

-- Lanes that read alike are trimmed to the same list.
pub trim-Alike : (ls ks : Lanes) → Alike ls ks → trim ls ≡ trim ks
unfolding trim
trim-Alike [] ks h = sym (trim-null ks h)
trim-Alike (l ∷ ls) [] h = trim-null (l ∷ ls) (λ c. sym (h c))
trim-Alike (l ∷ ls) (k ∷ ks) h = cc (h 0, trim-Alike ls ks (λ c. h (suc c)))

pub put_lane-Alike :
    (c : ℕ) (v : Option Text) (ls ks : Lanes)
    → Alike ls ks
    → Alike (put_lane c v ls) (put_lane c v ks)
put_lane-Alike c v ls ks h j = rw (lane_at-put c j v ls, lane_at-put c j v ks, h j)

pub bend_lanes-Alike :
    (oid : Text) (node : ℕ) (ls ks : Lanes)
    → Alike ls ks
    → Alike (bend_lanes oid node 0 ls) (bend_lanes oid node 0 ks)
bend_lanes-Alike oid node ls ks h j =
    rw (lane_at-bend oid node 0 j ls, lane_at-bend oid node 0 j ks, h j)

eq_or_ne : (i j : ℕ) → (i ≡ j) ⊎ (i ≢ j)
eq_or_ne i j = ground arith

lane_at-null_lanes : (n c : ℕ) → lane_at (null_lanes n) c ≡ none
unfolding null_lanes
lane_at-null_lanes zero c = refl
lane_at-null_lanes (suc n) zero = refl
lane_at-null_lanes (suc n) (suc c) = lane_at-null_lanes n c

abbrev or_lane : Option Text → Option Text → Option Text
or_lane none d = d
or_lane (some t) d = some t

restore_below :
    (ls ks : Lanes) (i j : ℕ)
    → j < i
    → lane_at (restore_lanes (incoming_lanes i ls) ks) j ≡ lane_at ks j
unfolding restore_lanes incoming_lanes
restore_below [] ks i j h = refl
restore_below (none ∷ ls) ks i j h = restore_below ls ks (i + 1) j (omega arith)
restore_below (some t ∷ ls) ks i j h =
    ground (arith, restore_below ls (put_lane i (some t) ks) (i + 1) j, lane_at-put i j (some t) ks)

restore_from :
    (ls ks : Lanes) (i k j : ℕ)
    → j ≡ i + k
    → lane_at (restore_lanes (incoming_lanes i ls) ks) j ≡ or_lane (lane_at ls k) (lane_at ks j)
unfolding restore_lanes incoming_lanes
restore_from [] ks i k j e = refl
restore_from (none ∷ ls) ks i zero j e = restore_below ls ks (i + 1) j (omega arith)
restore_from (none ∷ ls) ks i (suc k) j e = restore_from ls ks (i + 1) k j (omega arith)
restore_from (some t ∷ ls) ks i zero j e =
    ground (arith, restore_below ls (put_lane i (some t) ks) (i + 1) j, lane_at-put i j (some t) ks)
restore_from (some t ∷ ls) ks i (suc k) j e =
    ground
      (arith, restore_from ls (put_lane i (some t) ks) (i + 1) k j, lane_at-put i j (some t) ks)

or_lane-none : (l : Option Text) → or_lane l none ≡ l
or_lane-none none = refl
or_lane-none (some t) = refl

-- Writing the incoming lanes of a row into empty columns gives back the lanes of the row.
pub restore_lanes-Alike :
    (n : ℕ) (ls : Lanes) → Alike (restore_lanes (incoming_lanes 0 ls) (null_lanes n)) ls
restore_lanes-Alike n ls c =
    restore_from ls (null_lanes n) 0 c c (omega arith)
    ∙ ap (or_lane (lane_at ls c)) (lane_at-null_lanes n c)
    ∙ or_lane-none (lane_at ls c)
