-- ===== src/Prelude/Maps.antt =====
-- `Map` of JavaScript with text keys: a list of entries in the order of insertion.
use mathlib.Core.Path.{◌≡◌, refl}
use mathlib.Core.Logic.{◌≢◌}
use mathlib.Core.Bool.{Bool, true}
use Prim.Native.Nat.{◌≤◌, ◌<◌}
use gitna.Prelude.Lists.{length}
use mathlib.Core.List.{List, [], ◌∷◌, ◌++◌, map}
use mathlib.Core.Option.{Option, none, some}
use native.Mathlib.Omega.{arith}
use gitna.Prelude.Tests.{if◌then◌else◌, is_some}
use gitna.Prelude.Strings.{Text, ◌===◌}

abbrev pub JsMap {ℓ} : Type ℓ → Type ℓ
JsMap V = List (Text × V)

module _ {ℓ} {V : Type ℓ} where
  -- `map.get(key)`
  unfoldable pub map_get : Text → JsMap V → Option V
  map_get k [] = none
  map_get k ((j, v) ∷ m) = if j === k then some v else map_get k m

  -- `map.has(key)`
  abbrev pub map_has : Text → JsMap V → Bool
  map_has k m = is_some (map_get k m)

  -- `map.set(key, value)`: an old key keeps its place, a new one goes to the end.
  unfoldable pub map_set : Text → V → JsMap V → JsMap V
  map_set k v [] = (k, v) ∷ []
  map_set k v ((j, w) ∷ m) = if j === k then (k, v) ∷ m else (j, w) ∷ map_set k v m

  -- `map.delete(key)`
  unfoldable pub map_delete : Text → JsMap V → JsMap V
  map_delete k [] = []
  map_delete k ((j, w) ∷ m) = let rest = map_delete k m in if j === k then rest else (j, w) ∷ rest

  abbrev pub keys : JsMap V → List Text
  keys = map (λ e. e.0)

  abbrev pub values : JsMap V → List V
  values = map (λ e. e.1)

  pub get-set :
      (k j : Text) (v : V) (m : JsMap V)
      → map_get j (map_set k v m) ≡ (if k === j then some v else map_get j m)
  unfolding map_get map_set
  get-set k j v [] = refl
  get-set k j v ((i, w) ∷ m) = ground (arith, get-set k j v m)

  pub get-delete :
      (k j : Text) (m : JsMap V)
      → map_get j (map_delete k m) ≡ (if k === j then none else map_get j m)
  unfolding map_get map_delete
  get-delete k j [] = ground arith
  get-delete k j ((i, w) ∷ m) = ground (arith, get-delete k j m)

  pub length-map_delete-le : (k : Text) (m : JsMap V) → length (map_delete k m) ≤ length m
  unfolding map_delete
  length-map_delete-le k [] = omega arith
  length-map_delete-le k ((j, v) ∷ m) = ground (arith, length-map_delete-le k m)

  pub length-map_delete-lt :
      (k : Text) (m : JsMap V) → map_has k m ≡ true → length (map_delete k m) < length m
  unfolding map_delete map_get
  length-map_delete-lt k [] h = cc
  length-map_delete-lt k ((j, v) ∷ m) h =
      ground (arith, length-map_delete-lt k m, length-map_delete-le k m)

  pub get-set_self : (k : Text) (v : V) (m : JsMap V) → map_get k (map_set k v m) ≡ some v
  get-set_self k v m = ground (arith, get-set k k v m)

  pub get-set_ne :
      (k j : Text) (v : V) (m : JsMap V) → k ≢ j → map_get j (map_set k v m) ≡ map_get j m
  get-set_ne k j v m h = ground (arith, get-set k j v m)

  pub get-delete_ne : (k j : Text) (m : JsMap V) → k ≢ j → map_get j (map_delete k m) ≡ map_get j m
  get-delete_ne k j m h = ground (arith, get-delete k j m)

  -- Setting a key that is there keeps the keys and their order.
  pub keys-set_old :
      (k : Text) (v w : V) (m : JsMap V) → map_get k m ≡ some w → keys (map_set k v m) ≡ keys m
  unfolding map_get map_set
  keys-set_old k v w [] h = cc
  keys-set_old k v w ((j, u) ∷ m) h = ground (arith, keys-set_old k v w m)

  -- Setting a new key puts it at the end.
  pub set_new :
      (k : Text) (v : V) (m : JsMap V) → map_get k m ≡ none → map_set k v m ≡ m ++ (k, v) ∷ []
  unfolding map_get map_set
  set_new k v [] h = refl
  set_new k v ((j, u) ∷ m) h = ground (arith, set_new k v m)
