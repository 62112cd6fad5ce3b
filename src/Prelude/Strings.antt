-- ===== src/Prelude/Strings.antt =====
-- JavaScript strings as lists of UTF-16 code units, and the string methods that the sources call.
use Prim.Native.Char.{code}
use Prim.Native.String.{String}
use Prim.Native.Nat.{ℕ, zero, suc, ◌+◌, ◌-◌, ◌*◌, ◌/◌, ◌%◌, ◌<◌}
use mathlib.Core.Path.{◌≡◌, refl}
use mathlib.Core.Bool.{Bool, false, not}
use mathlib.Core.List.{List, [], ◌∷◌, ◌++◌, reverse, reverse-reverse}
use native.Mathlib.Omega.{arith}
use native.Mathlib.Decide.{ℕ_discrete}
use gitna.Prelude.Tests.{leb, ltb, ◌==◌, if◌then◌else◌, test, coalesce_or}
use gitna.Prelude.Lists.{any_of, get_last?}

abbrev pub Text : Type 0
Text = List ℕ

-- The code units of a literal of the source, which is ASCII.
abbrev pub codes : String → Text
codes String.[] = []
codes (String.◌∷◌ c s) = code c ∷ codes s

cons_eq : {c d : ℕ} {s t : Text} → c ≡ d → s ≡ t → c ∷ s ≡ d ∷ t
cons_eq p q = cc

head-eq_of_cons : {c d : ℕ} {s t : Text} → c ∷ s ≡ d ∷ t → c ≡ d
head-eq_of_cons e = ground arith

tail-eq_of_cons : {c d : ℕ} {s t : Text} → c ∷ s ≡ d ∷ t → s ≡ t
tail-eq_of_cons e = ground arith

nil-ne-cons : {d : ℕ} {t : Text} → ◌≡◌ {A = Text} [] (d ∷ t) → ⊥
nil-ne-cons e = cc

cons-ne-nil : {d : ℕ} {t : Text} → ◌≡◌ {A = Text} (d ∷ t) [] → ⊥
cons-ne-nil e = cc

unfoldable pub text_dec : (s t : Text) → Dec (s ≡ t)
unfolding ℕ_discrete cons_eq head-eq_of_cons tail-eq_of_cons nil-ne-cons cons-ne-nil
text_dec [] [] = yes refl
text_dec [] (d ∷ t) = no nil-ne-cons
text_dec (c ∷ s) [] = no cons-ne-nil
text_dec (c ∷ s) (d ∷ t) = elim (ℕ_discrete c d) [
  | yes p ↦ elim (text_dec s t) [
    | yes q ↦ yes (cons_eq p q)
    | no q ↦ no (λ e. q (tail-eq_of_cons e))
  ]
  | no p ↦ no (λ e. p (head-eq_of_cons e))
]

-- `s === t`
infix 50 ◌===◌
abbrev pub ◌===◌ : Text → Text → Bool
s === t = test (text_dec s t)

-- `s < t`, in the order of the code units
unfoldable pub is_before : Text → Text → Bool
is_before [] t = not (t === [])
is_before (c ∷ cs) [] = false
is_before (c ∷ cs) (d ∷ ds) = let rest = is_before cs ds in if c == d then rest else not (leb d c)

-- `texts.sort()`
unfoldable pub insert_text : Text → List Text → List Text
insert_text s [] = s ∷ []
insert_text s (t ∷ ts) = if is_before t s then t ∷ insert_text s ts else s ∷ t ∷ ts

unfoldable pub sort_texts : List Text → List Text
sort_texts [] = []
sort_texts (s ∷ ts) = insert_text s (sort_texts ts)

-- `texts.includes(text)`
abbrev pub includes : List Text → Text → Bool
includes texts text = any_of (λ t. t === text) texts

-- `text.endsWith('/')`
abbrev pub ends_with_slash : Text → Bool
ends_with_slash [] = false
ends_with_slash (c ∷ []) = c == b'/'
ends_with_slash (c ∷ d ∷ s) = ends_with_slash (d ∷ s)

-- `text.split(c)` for a separator of one code unit.
unfoldable pub split : ℕ → Text → Text × List Text
split c [] = ([], [])
split c (d ∷ s) =
    let (head, rest) = split c s in if d == c then ([], head ∷ rest) else (d ∷ head, rest)

-- `text.split(c).at(-1) ?? text`
unfoldable pub last_segment : ℕ → Text → Text
unfolding split
last_segment c s = let (head, rest) = split c s in coalesce_or (get_last? rest) head

-- The digits of a number, the last one first.
digits_rev : ℕ → ℕ → Text
digits_rev zero n = []
digits_rev (suc f) n =
    let rest = digits_rev f (n / 10) in if ltb n 10 then (n + b'0') ∷ [] else (n % 10 + b'0') ∷ rest

-- `${n}`
unfoldable pub to_text : ℕ → Text
unfolding digits_rev
to_text n = reverse (digits_rev (suc n) n)

value_rev : Text → ℕ
value_rev [] = 0
value_rev (c ∷ s) = c - b'0' + 10 * value_rev s

value-digits : (f n : ℕ) → n < f → value_rev (digits_rev f n) ≡ n
unfolding value_rev digits_rev
value-digits zero n h = elim h [ ]
value-digits (suc f) n h = ground (arith, value-digits f (n / 10))

-- Different numbers are written differently.
pub to_text-injective : (m n : ℕ) → to_text m ≡ to_text n → m ≡ n
unfolding to_text
to_text-injective m n e = cc (
  value-digits (suc m) m (omega arith),
  value-digits (suc n) n (omega arith),
  reverse-reverse (digits_rev (suc m) m),
  reverse-reverse (digits_rev (suc n) n),
)

pub append_left_cancel : (s t u : Text) → s ++ t ≡ s ++ u → t ≡ u
append_left_cancel [] t u e = e
append_left_cancel (c ∷ s) t u e = append_left_cancel s t u (ground arith)

to_text_example : to_text 1205 ≡ codes "1205"
unfolding to_text
to_text_example = refl

last_segment_example : last_segment b'/' (codes "a/bc") ≡ codes "bc"
unfolding last_segment
last_segment_example = refl
