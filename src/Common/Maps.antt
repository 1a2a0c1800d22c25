-- ===== src/Common/Maps.antt =====
-- Go maps as association lists: each key stands once, and the order is not observed.
use Prim.Native.Nat.{suc, ◌≤◌, ◌<◌}
use mathlib.Core.Path.{◌≡◌, refl}
use mathlib.Core.Bool.{Bool, true}
use mathlib.Core.List.{List, [], ◌∷◌}
use mathlib.Core.Option.{Option, none, some}
use native.Mathlib.Omega.{arith}
use cpa_github_copilot.Common.Tests.{if◌then◌else◌, is_some, Eq, ◌==◌, eq_self}
use cpa_github_copilot.Common.Lists.{length}

abbrev pub Map {ℓ κ} : Type ℓ → Type κ → Type (ℓ ⊔ κ)
Map K V = List (K × V)

module _ {ℓ κ} {K : Type ℓ} {V : Type κ} ⦃e : Eq K⦄ where
  unfoldable pub lookup : K → Map K V → Option V
  lookup k [] = none
  lookup k ((other, value) ∷ entries) = if other == k then some value else lookup k entries

  -- `m[k] = v`.
  unfoldable pub insert : K → V → Map K V → Map K V
  insert k value [] = (k, value) ∷ []
  insert k value ((other, old) ∷ entries) =
      if other == k then (k, value) ∷ entries else (other, old) ∷ insert k value entries

  -- `delete(m, k)`.
  unfoldable pub delete : K → Map K V → Map K V
  delete k [] = []
  delete k ((other, old) ∷ entries) =
      let rest = delete k entries in if other == k then rest else (other, old) ∷ rest

  -- `_, ok := m[k]`.
  unfoldable pub is_present : K → Map K V → Bool
  is_present k entries = is_some (lookup k entries)

  pub lookup-insert :
      (k other : K) (value : V) (entries : Map K V)
      → lookup other (insert k value entries)
        ≡ (if k == other then some value else lookup other entries)
  unfolding lookup insert
  lookup-insert k other value [] = refl
  lookup-insert k other value ((own, old) ∷ entries) = ground (
    arith,
    e.is_equal_iff k other,
    e.is_equal_iff own k,
    e.is_equal_iff own other,
    lookup-insert k other value entries,
  )

  pub lookup-insert_self :
      (k : K) (value : V) (entries : Map K V) → lookup k (insert k value entries) ≡ some value
  lookup-insert_self k value entries = simp (lookup-insert, eq_self)

  pub lookup-delete :
      (k other : K) (entries : Map K V)
      → lookup other (delete k entries) ≡ (if k == other then none else lookup other entries)
  unfolding lookup delete
  lookup-delete k other [] = ground arith
  lookup-delete k other ((own, old) ∷ entries) = ground (
    arith,
    e.is_equal_iff k other,
    e.is_equal_iff own k,
    e.is_equal_iff own other,
    lookup-delete k other entries,
  )

  pub length-insert :
      (k : K) (value : V) (entries : Map K V)
      → length (insert k value entries)
        ≡ (if is_present k entries then length entries else suc (length entries))
  unfolding lookup insert is_present
  length-insert k value [] = refl
  length-insert k value ((other, old) ∷ entries) = ground (arith, length-insert k value entries)

  pub length-delete : (k : K) (entries : Map K V) → length (delete k entries) ≤ length entries
  unfolding delete
  length-delete k [] = omega arith
  length-delete k ((other, old) ∷ entries) = ground (arith, length-delete k entries)

  pub length-delete_present :
      (k : K) (entries : Map K V)
      → is_present k entries ≡ true
      → length (delete k entries) < length entries
  unfolding lookup delete is_present
  length-delete_present k [] h = absurd (ground arith)
  length-delete_present k ((other, old) ∷ entries) h =
      ground (arith, length-delete k entries, length-delete_present k entries)
