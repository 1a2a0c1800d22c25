-- ===== src/Common/Sorting.antt =====
-- `sort.Slice` and `sort.SliceStable`: a stable insertion sort by a test "is before".
use mathlib.Core.Path.{◌≡◌, refl}
use mathlib.Core.Bool.{Bool, true, false}
use mathlib.Core.Logic.{inl, inr}
use mathlib.Core.List.{List, [], ◌∷◌, Perm}
use mathlib.Core.List.Perm
use native.Mathlib.Omega.{arith}
use cpa_github_copilot.Common.Tests.{if◌then◌else◌, Bool-cases}
use cpa_github_copilot.Common.Lists.{All}

module _ {ℓ} {A : Type ℓ} (before : A → A → Bool) where
  -- In front of the first element that is not before it.
  unfoldable pub place : A → List A → List A
  place a [] = a ∷ []
  place a (b ∷ bs) = let later = b ∷ place a bs in if before b a then later else a ∷ b ∷ bs

  unfoldable pub sort : List A → List A
  unfolding place
  sort [] = []
  sort (a ∷ as') = place a (sort as')

  -- No later element is before an earlier one.
  abbrev pub Sorted : List A → Type 0
  Sorted [] = Unit
  Sorted (a ∷ as') = All (λ b. before b a ≡ false) as' × Sorted as'

  place-perm : (a : A) (bs : List A) → Perm (place a bs) (a ∷ bs)
  unfolding place
  place-perm a [] = Perm.refl (a ∷ [])
  place-perm a (b ∷ bs) = elim (Bool-cases (before b a)) [
    | inl e ↦ rw e (Perm.trans (Perm.cons b (place-perm a bs)) (Perm.swap a b bs))
    | inr e ↦ rw e (Perm.refl (a ∷ b ∷ bs))
  ]

  pub sort-perm : (as' : List A) → Perm (sort as') as'
  unfolding sort
  sort-perm [] = Perm.refl []
  sort-perm (a ∷ as') = Perm.trans (place-perm a (sort as')) (Perm.cons a (sort-perm as'))

  -- A list that is in order already is left as it is.
  pub sort-of_Sorted : (as' : List A) → Sorted as' → sort as' ≡ as'
  unfolding sort place
  sort-of_Sorted [] h = refl
  sort-of_Sorted (a ∷ []) h = refl
  sort-of_Sorted (a ∷ b ∷ bs) h = rw (sort-of_Sorted (b ∷ bs) h.1, h.0.0)

  All-place {κ} : (P : A → Type κ) (a : A) (bs : List A) → P a → All P bs → All P (place a bs)
  unfolding place
  All-place P a [] h k = (h, tt)
  All-place P a (b ∷ bs) h k = ground (arith, All-place P a bs h k.1)

  pub All-sort {κ} : (P : A → Type κ) (as' : List A) → All P as' → All P (sort as')
  unfolding sort
  All-sort P [] h = tt
  All-sort P (a ∷ as') h = All-place P a (sort as') h.0 (All-sort P as' h.1)

  -- `before` is transitive in the form "not before".
  abbrev pub NotBeforeTrans : Type ℓ
  NotBeforeTrans = (a b c : A) → before b a ≡ false → before c b ≡ false → before c a ≡ false

  -- Of two elements, at most one is before the other.
  abbrev pub Asymmetric : Type ℓ
  Asymmetric = (a b : A) → before a b ≡ true → before b a ≡ false

  All-trans :
      NotBeforeTrans
      → (a b : A) (bs : List A) → before b a ≡ false
      → All (λ c. before c b ≡ false) bs
      → All (λ c. before c a ≡ false) bs
  All-trans trans a b [] h k = tt
  All-trans trans a b (c ∷ cs) h k = (trans a b c h k.0, All-trans trans a b cs h k.1)

  place-Sorted :
      NotBeforeTrans → Asymmetric → (a : A) (bs : List A) → Sorted bs → Sorted (place a bs)
  unfolding place
  place-Sorted trans asym a [] h = (tt, tt)
  place-Sorted trans asym a (b ∷ bs) h = elim (Bool-cases (before b a)) [
    | inl e ↦ rw e (
      All-place (λ c. before c b ≡ false) a bs (asym b a e) h.0,
      place-Sorted trans asym a bs h.1,
    )
    | inr e ↦ rw e ((e, All-trans trans a b bs e h.0), h)
  ]

  pub sort-Sorted : NotBeforeTrans → Asymmetric → (as' : List A) → Sorted (sort as')
  unfolding sort
  sort-Sorted trans asym [] = tt
  sort-Sorted trans asym (a ∷ as') =
      place-Sorted trans asym a (sort as') (sort-Sorted trans asym as')
