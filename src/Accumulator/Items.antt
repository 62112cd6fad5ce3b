-- ===== src/Accumulator/Items.antt =====
-- Every item is registered under its own id at its own place, through renames and collisions.
use gitna.Prelude.{
  ℕ, zero, suc, ◌<◌, ◌≡◌, ◌≢◌, refl, ◌∙◌, false, Option, none, some, List, [], ◌∷◌, ◌++◌, arith,
  ◌==◌, if◌then◌else◌, length, Text, ◌===◌, JsMap, map_get, map_set, map_delete, map_has, get-set,
  get-delete, is_some, Option-cases, inl, inr,
}
use gitna.Accumulator.{SidebarFile, Item, PathState, rename_item, move_key}

-- The id of the item at a place.
abbrev pub id_at : List Item → ℕ → Option Text
id_at [] i = none
id_at (x ∷ xs) zero = some x.id
id_at (x ∷ xs) (suc i) = id_at xs i

-- The place that is registered for an id.
abbrev pub order_at : JsMap SidebarFile → Text → Option ℕ
order_at m id = elim (map_get id m) [ none ↦ none | some f ↦ some f.file_order ]

id_at-rename :
    (i j : ℕ) (id : Text) (xs : List Item)
    → id_at (rename_item i id xs) j
      ≡ (if i == j then (if is_some (id_at xs j) then some id else none) else id_at xs j)
unfolding rename_item
id_at-rename i j id [] = ground arith
id_at-rename zero zero id (x ∷ xs) = refl
id_at-rename zero (suc j) id (x ∷ xs) = ground arith
id_at-rename (suc i) zero id (x ∷ xs) = ground arith
id_at-rename (suc i) (suc j) id (x ∷ xs) = id_at-rename i j id xs ∙ ground arith

pub id_at-push :
    (j : ℕ) (x : Item) (xs : List Item)
    → id_at (xs ++ x ∷ []) j ≡ (if j == length xs then some x.id else id_at xs j)
id_at-push zero x [] = ground arith
id_at-push (suc j) x [] = ground arith
id_at-push zero x (y ∷ ys) = ground arith
id_at-push (suc j) x (y ∷ ys) = id_at-push j x ys ∙ ground arith

pub id_at_within : (xs : List Item) (i : ℕ) (id : Text) → id_at xs i ≡ some id → i < length xs
id_at_within [] i id e = cc
id_at_within (x ∷ xs) zero id e = omega arith
id_at_within (x ∷ xs) (suc i) id e = omega (arith, id_at_within xs i id e)

-- Registered: the id of the item at a place leads to that place. So no two items share an id.
-- The state of a path names the item that holds the path now, by place and id, and no two paths name
-- the same place.
pub record IsRegistered (m : JsMap SidebarFile) (xs : List Item) (states : JsMap PathState)
    : Type 0 where
  pub registered : (i : ℕ) (id : Text) → id_at xs i ≡ some id → order_at m id ≡ some i
  pub current :
      (p : Text) (st : PathState)
      → map_get p states ≡ some st
      → id_at xs st.current_item ≡ some st.current_item_id
  pub apart :
      (p q : Text) (st su : PathState)
      → map_get p states ≡ some st
      → map_get q states ≡ some su
      → p ≢ q
      → st.current_item ≢ su.current_item

order_at-move :
    (old_id new_id id : Text) (m : JsMap SidebarFile) (i : ℕ)
    → order_at m old_id ≡ some i
    → order_at (move_key old_id new_id m) id
      ≡ (if new_id === id then some i else (if old_id === id then none else order_at m id))
unfolding move_key
order_at-move old_id new_id id m i h = elim (Option-cases (map_get old_id m)) [
  | inl e ↦ ground arith
  | inr (v, e) ↦
      rw (e, move_key)
        (ground (arith, get-set new_id id v (map_delete old_id m), get-delete old_id id m))
]

-- Renaming the item of a path keeps all registered.
pub rename-IsRegistered :
    (m : JsMap SidebarFile) (xs : List Item) (states : JsMap PathState) (p new_id : Text)
    (st : PathState)
    → IsRegistered m xs states
    → map_get p states ≡ some st
    → map_has new_id m ≡ false
    → IsRegistered
        (move_key st.current_item_id new_id m)
        (rename_item st.current_item new_id xs)
        (map_set p (record st { current_item_id = new_id }) states)
rename-IsRegistered m xs states p new_id st h s fresh =
    let i = st.current_item in
    let old_id = st.current_item_id in
    let here = h.current p st s in
    let place = h.registered i old_id here in
    record {
      registered = λ j id e. ground (
        arith,
        id_at-rename i j new_id xs,
        order_at-move old_id new_id id m i place,
        h.registered j id,
      );
      current = λ q su e. ground (
        arith,
        get-set p q (record st { current_item_id = new_id }) states,
        id_at-rename i su.current_item new_id xs,
        h.current q su,
        h.apart p q st su s,
      );
      apart = λ q r su sv e f n. ground (
        arith,
        get-set p q (record st { current_item_id = new_id }) states,
        get-set p r (record st { current_item_id = new_id }) states,
        h.apart q r su sv,
        h.apart p r st sv s,
        h.apart q p su st,
      );
    }

pub push-IsRegistered :
    (m : JsMap SidebarFile) (xs : List Item) (states : JsMap PathState) (x : Item) (f : SidebarFile)
    → IsRegistered m xs states
    → map_has x.id m ≡ false
    → f.file_order ≡ length xs
    → IsRegistered (map_set x.id f m) (xs ++ x ∷ []) states
push-IsRegistered m xs states x f h fresh e = record {
  registered = λ j id p. ground (arith, id_at-push j x xs, get-set x.id id f m, h.registered j id);
  current = λ q st p. ground (
    arith,
    id_at-push st.current_item x xs,
    h.current q st,
    id_at_within xs st.current_item st.current_item_id,
  );
  apart = h.apart;
}

-- The path of a new item takes that item for its current one.
pub state-IsRegistered :
    (m : JsMap SidebarFile) (xs : List Item) (states : JsMap PathState) (p : Text) (st : PathState)
    → IsRegistered m xs states
    → id_at xs st.current_item ≡ some st.current_item_id
    → ((q : Text) (su : PathState) → map_get q states ≡ some su → su.current_item ≢ st.current_item)
    → IsRegistered m xs (map_set p st states)
state-IsRegistered m xs states p st h e new_place = record {
  registered = h.registered;
  current = λ q su f. ground (arith, get-set p q st states, h.current q su);
  apart = λ q r su sv f g n. ground (
    arith,
    get-set p q st states,
    get-set p r st states,
    h.apart q r su sv,
    new_place q su,
    new_place r sv,
  );
}
