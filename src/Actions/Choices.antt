-- ===== src/Actions/Choices.antt =====
-- What is selected after a refresh, and which of two refreshes of the files is the stronger.
use gitna.Prelude.{ℕ, max, ◌⊎◌, inl, inr, ◌≡◌, refl}
use gitna.Actions.{
  FileMembershipRefresh, unknown, unchanged, changed, stronger_file_membership_refresh,
}

-- How strong a refresh is: that the files changed is the strongest, that nothing is known the weakest.
unfoldable pub strength : FileMembershipRefresh → ℕ
strength unknown = 0
strength unchanged = 1
strength changed = 2

-- The stronger of two refreshes is one of them, and is as strong as the stronger one, where `unknown` is
-- weaker than `unchanged` and that is weaker than `changed`; so it depends neither on their order nor on
-- their grouping nor on repetition, and `unknown` is the weakest.
pub stronger_file_membership_refresh-IsJoin :
    (a b c : FileMembershipRefresh)
    → (stronger_file_membership_refresh a b ≡ stronger_file_membership_refresh b a)
      × (stronger_file_membership_refresh (stronger_file_membership_refresh a b) c
          ≡ stronger_file_membership_refresh a (stronger_file_membership_refresh b c))
      × (stronger_file_membership_refresh a a ≡ a)
      × (stronger_file_membership_refresh unknown a ≡ a)
      × ((stronger_file_membership_refresh a b ≡ a) ⊎ (stronger_file_membership_refresh a b ≡ b))
      × (strength (stronger_file_membership_refresh a b) ≡ max (strength a) (strength b))
unfolding stronger_file_membership_refresh strength
stronger_file_membership_refresh-IsJoin unknown unknown c = (refl, refl, refl, refl, inl refl, refl)
stronger_file_membership_refresh-IsJoin unknown unchanged c =
    (refl, refl, refl, refl, inr refl, refl)
stronger_file_membership_refresh-IsJoin unknown changed c = (refl, refl, refl, refl, inr refl, refl)
stronger_file_membership_refresh-IsJoin unchanged unknown c =
    (refl, refl, refl, refl, inl refl, refl)
stronger_file_membership_refresh-IsJoin unchanged unchanged unknown =
    (refl, refl, refl, refl, inl refl, refl)
stronger_file_membership_refresh-IsJoin unchanged unchanged unchanged =
    (refl, refl, refl, refl, inl refl, refl)
stronger_file_membership_refresh-IsJoin unchanged unchanged changed =
    (refl, refl, refl, refl, inl refl, refl)
stronger_file_membership_refresh-IsJoin unchanged changed c =
    (refl, refl, refl, refl, inr refl, refl)
stronger_file_membership_refresh-IsJoin changed unknown c = (refl, refl, refl, refl, inl refl, refl)
stronger_file_membership_refresh-IsJoin changed unchanged unknown =
    (refl, refl, refl, refl, inl refl, refl)
stronger_file_membership_refresh-IsJoin changed unchanged unchanged =
    (refl, refl, refl, refl, inl refl, refl)
stronger_file_membership_refresh-IsJoin changed unchanged changed =
    (refl, refl, refl, refl, inl refl, refl)
stronger_file_membership_refresh-IsJoin changed changed c = (refl, refl, refl, refl, inl refl, refl)
