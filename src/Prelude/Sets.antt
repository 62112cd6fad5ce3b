-- ===== src/Prelude/Sets.antt =====
-- `Set` of JavaScript with texts: a list of its elements in the order of insertion.
use mathlib.Core.Path.{◌≡◌, refl}
use mathlib.Core.Bool.{Bool, true, ◌||◌, ◌&&◌}
use mathlib.Core.List.{List, [], ◌∷◌, ◌++◌}
use native.Mathlib.Omega.{arith}
use gitna.Prelude.Tests.{if◌then◌else◌}
use gitna.Prelude.Lists.{keep}
use gitna.Prelude.Strings.{Text, ◌===◌, includes, insert_text, sort_texts}

-- `set.add(text)`, and `texts.push(text)` after the test that it is not there
unfoldable pub set_add : Text → List Text → List Text
set_add text texts = if includes texts text then texts else texts ++ text ∷ []

-- `set.delete(text)`
unfoldable pub set_delete : Text → List Text → List Text
set_delete text [] = []
set_delete text (t ∷ texts) =
    let rest = set_delete text texts in if t === text then rest else t ∷ rest

-- `for (const text of texts) set.add(text)`
unfoldable pub set_add_all : List Text → List Text → List Text
set_add_all [] texts = texts
set_add_all (t ∷ more) texts = set_add_all more (set_add t texts)

pub includes-append :
    (texts more : List Text) (p : Text)
    → includes (texts ++ more) p ≡ (includes texts p || includes more p)
includes-append [] more p = refl
includes-append (t ∷ texts) more p = ground (arith, includes-append texts more p)

pub includes-insert_text :
    (s : Text) (texts : List Text) (p : Text)
    → includes (insert_text s texts) p ≡ (s === p || includes texts p)
unfolding insert_text
includes-insert_text s [] p = refl
includes-insert_text s (t ∷ texts) p = ground (arith, includes-insert_text s texts p)

pub includes-sort_texts :
    (texts : List Text) (p : Text) → includes (sort_texts texts) p ≡ includes texts p
unfolding sort_texts
includes-sort_texts [] p = refl
includes-sort_texts (t ∷ texts) p =
    ground (arith, includes-insert_text t (sort_texts texts) p, includes-sort_texts texts p)

includes-of_eq :
    (texts : List Text) (t p : Text)
    → includes texts t ≡ true
    → (includes texts p ≡ (t === p || includes texts p))
includes-of_eq texts t p h = ground arith

pub includes-set_add :
    (t : Text) (texts : List Text) (p : Text)
    → includes (set_add t texts) p ≡ (t === p || includes texts p)
unfolding set_add
includes-set_add t texts p =
    ground (arith, includes-append texts (t ∷ []) p, includes-of_eq texts t p)

pub includes-set_add_all :
    (more texts : List Text) (p : Text)
    → includes (set_add_all more texts) p ≡ (includes more p || includes texts p)
unfolding set_add_all
includes-set_add_all [] texts p = refl
includes-set_add_all (t ∷ more) texts p =
    ground (arith, includes-set_add_all more (set_add t texts) p, includes-set_add t texts p)

pub includes-keep :
    (q : Text → Bool) (texts : List Text) (p : Text)
    → includes (keep q texts) p ≡ (q p && includes texts p)
includes-keep q [] p = ground arith
includes-keep q (t ∷ texts) p = ground (arith, includes-keep q texts p)
