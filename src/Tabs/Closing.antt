-- ===== src/Tabs/Closing.antt =====
-- What is open after files are closed.
use gitna.Prelude.{
  includes, ◌≡◌, refl, ap, Bool, true, false, not, ◌&&◌, is_some, sym, inl, inr, Option, none, some,
  List, [], ◌∷◌, keep, any_of, Text, Bool-cases, if-holds,
}
use native.Mathlib.Omega.{arith}
use gitna.Tabs.{
  close_repository_file_comparison, leave_closed, close_tabs, Tabs, close_repository_files,
}

keep_all : (p : Text → Bool) (xs : List Text) → any_of p xs ≡ false → keep (λ x. not (p x)) xs ≡ xs
keep_all p [] e = refl
keep_all p (x ∷ xs) e = elim (Bool-cases (p x)) [
  | inl f ↦ ground (arith, e, f)
  | inr f ↦ rw f (ap (◌∷◌ x) (keep_all p xs (ground (arith, e, f))))
]

leave_closed-open :
    (t : Tabs) (xs closing : List Text) (o : Option Text)
    → (leave_closed t xs closing o).repository_open_paths ≡ t.repository_open_paths
unfolding leave_closed
leave_closed-open t xs closing none = refl
leave_closed-open t xs closing (some path) =
    if-holds (λ (u : Tabs). u.repository_open_paths ≡ t.repository_open_paths) _ _ _ refl refl

and-cases : (s t : Bool) → (not s && t) ≡ true → s ≡ false
and-cases true t e = absurd cc
and-cases false t e = refl

-- Closing files leaves open exactly the open files that are not among them, in their order.
pub close_repository_files-open :
    (t : Tabs) (paths : List Text) (close_comparison : Bool)
    → (close_repository_files t paths close_comparison).repository_open_paths
      ≡ keep (λ p. not (includes paths p)) t.repository_open_paths
unfolding close_repository_files close_tabs close_repository_file_comparison
close_repository_files-open t paths close_comparison =
    elim (Bool-cases (
      not (any_of (λ p. includes paths p) t.repository_open_paths)
      && not (close_comparison && is_some t.repository_file_comparison))) [
        | inl e ↦
            rw (close_repository_files, e)
              (sym (keep_all (includes paths) t.repository_open_paths (and-cases _ _ e)))
        | inr e ↦
            rw (close_repository_files, e)
              (elim (Bool-cases close_comparison) [
                | inl f ↦ rw f (leave_closed-open _ _ paths _)
                | inr f ↦ rw f (leave_closed-open _ _ paths _)
              ])
      ]
