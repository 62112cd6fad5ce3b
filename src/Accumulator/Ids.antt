-- ===== src/Accumulator/Ids.antt =====
-- Item ids: the search for a free suffix ends within its fuel, and the id that it gives is free.
use gitna.Prelude.{
  length-map_delete-lt, ℕ, zero, suc, ◌+◌, ◌≤◌, ◌<◌, ◌≡◌, ◌≢◌, refl, ap, ◌∙◌, sym, false, ◌∷◌,
  arith, length, Text, to_text, to_text-injective, append_left_cancel, JsMap, map_delete, map_has,
  get-delete_ne, is_some, Bool-cases, inl, inr,
}
use gitna.Accumulator.{Accumulator, SidebarFile, suffixed, free_suffix, create_unique_item_id}

suffixed-injective : (base : Text) (m n : ℕ) → suffixed base m ≡ suffixed base n → m ≡ n
unfolding suffixed
suffixed-injective base m n e =
    to_text-injective m n
      (ground (arith, append_left_cancel base (b'-' ∷ to_text m) (b'-' ∷ to_text n) e))

has-delete_ne :
    (k j : Text) (m : JsMap SidebarFile) → k ≢ j → map_has j (map_delete k m) ≡ map_has j m
has-delete_ne k j m h = ap is_some (get-delete_ne k j m h)

free_suffix-le : (f : ℕ) (base : Text) (m : JsMap SidebarFile) (s : ℕ) → s ≤ free_suffix f base m s
unfolding free_suffix
free_suffix-le zero base m s = omega arith
free_suffix-le (suc f) base m s = ground (arith, free_suffix-le f base m (s + 1))

-- An id below the suffix does not matter to the search.
free_suffix-delete :
    (f : ℕ) (base : Text) (m : JsMap SidebarFile) (t s : ℕ)
    → t < s
    → free_suffix f base (map_delete (suffixed base t) m) s ≡ free_suffix f base m s
unfolding free_suffix
free_suffix-delete zero base m t s h = refl
free_suffix-delete (suc f) base m t s h = rw (
  has-delete_ne (suffixed base t) (suffixed base s) m
      (λ e. absurd (omega (arith, suffixed-injective base t s e))),
  free_suffix-delete f base m t (s + 1) (omega arith),
)

free_suffix_free :
    (f : ℕ) (base : Text) (m : JsMap SidebarFile) (s : ℕ)
    → length m < f
    → map_has (suffixed base (free_suffix f base m s)) m ≡ false
unfolding free_suffix
free_suffix_free zero base m s h = elim h [ ]
free_suffix_free (suc f) base m s h = elim (Bool-cases (map_has (suffixed base s) m)) [
  | inl taken ↦
      let k = suffixed base s in
      let r = free_suffix f base m (s + 1) in
      let ih =
        free_suffix_free f base (map_delete k m) (s + 1)
          (omega (arith, length-map_delete-lt k m taken)) in
      let later = free_suffix-le f base m (s + 1) in
      rw taken (
        sym (
          has-delete_ne k (suffixed base r) m
            (λ e. absurd (omega (arith, suffixed-injective base s r e, later))))
        ∙ ap (λ q. map_has (suffixed base q) (map_delete k m))
            (sym (free_suffix-delete f base m s (s + 1) (omega arith)))
        ∙ ih)
  | inr open_id ↦ rw open_id open_id
]

-- The id that is created is not the id of an item, whatever ids there are.
pub create_unique_item_id_free :
    (a : Accumulator) (base : Text)
    → map_has (create_unique_item_id a base).0 a.item_id_to_file ≡ false
unfolding create_unique_item_id
create_unique_item_id_free a base = elim (Bool-cases (map_has base a.item_id_to_file)) [
  | inl taken ↦
      rw (taken, create_unique_item_id)
        (free_suffix_free (length a.item_id_to_file + 1) base a.item_id_to_file _ (omega arith))
  | inr open_id ↦ rw (open_id, create_unique_item_id) open_id
]
