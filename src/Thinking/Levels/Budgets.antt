-- ===== src/Thinking/Levels/Budgets.antt =====
-- internal/thinking/convert.go: the conversions and their inverse.
use cpa_github_copilot.Common.{
  ◌≡◌, refl, subst, ◌⊎◌, inl, inr, Bool-cases, some, [], ◌∷◌, arith, Bytes, Bytes_eq, bytes_eq,
  ◌==◌, eq→path, codes, to_lower, ℤ, Map, lookup,
}
use cpa_github_copilot.Thinking.Levels.{
  level_to_budget_map, convert_level_to_budget, convert_budget_to_level,
}

-- What the conversion back gives for an entry of the table.
abbrev AllBack : Map Bytes ℤ → Type 0
AllBack [] = Unit
AllBack ((level, budget) ∷ entries) =
    ((convert_budget_to_level budget ≡ some level) ⊎ (level ≡ codes "max")) × AllBack entries

table-AllBack : AllBack level_to_budget_map
unfolding convert_budget_to_level
table-AllBack = (
  inl refl,
  (inl refl, (inl refl, (inl refl, (inl refl, (inl refl, (inl refl, (inr refl, tt))))))),
)

lookup-back :
    (entries : Map Bytes ℤ) (level : Bytes) (budget : ℤ)
    → AllBack entries
    → lookup level entries ≡ some budget
    → (convert_budget_to_level budget ≡ some level) ⊎ (level ≡ codes "max")
unfolding lookup bytes_eq
lookup-back [] level budget t h = absurd (ground (arith, h))
lookup-back ((other, value) ∷ entries) level budget t h = elim (Bool-cases (other == level)) [
  | inl e ↦
      let same : other ≡ level = eq→path other level e in
      let v : value ≡ budget = ground (arith, h, e) in
      subst (λ b. (convert_budget_to_level b ≡ some level) ⊎ (level ≡ codes "max")) v
        (subst (λ l. (convert_budget_to_level value ≡ some l) ⊎ (l ≡ codes "max")) same t.0)
  | inr e ↦ lookup-back entries level budget t.1 (ground (arith, h, e))
]

-- A level's budget converts back to that level, in lower case, unless the level is "max".
convert_level_to_budget-back :
    (level : Bytes) (budget : ℤ)
    → convert_level_to_budget level ≡ some budget
    → (convert_budget_to_level budget ≡ some (to_lower level)) ⊎ (to_lower level ≡ codes "max")
unfolding convert_level_to_budget
convert_level_to_budget-back level budget h =
    lookup-back level_to_budget_map (to_lower level) budget table-AllBack h
