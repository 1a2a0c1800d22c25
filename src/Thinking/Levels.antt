-- ===== src/Thinking/Levels.antt =====
-- internal/thinking/convert.go: levels of reasoning as budgets of tokens, and back.
mod Budgets
mod Examples
use cpa_github_copilot.Common.{
  ℕ, Bool, true, false, ◌&&◌, ◌||◌, Option, none, some, List, [], ◌∷◌, if◌then◌else◌, any, leb,
  nat_eq, Bytes, Bytes_eq, Eq, ◌==◌, codes, trim_space, to_lower, equal_fold, ℤ, pos, negsuc, Map,
  lookup,
}

-- `levelToBudgetMap`.
abbrev pub level_to_budget_map : Map Bytes ℤ
level_to_budget_map =
    (codes "none", pos 0)
    ∷ (codes "auto", negsuc 0)
    ∷ (codes "minimal", pos 512)
    ∷ (codes "low", pos 1024)
    ∷ (codes "medium", pos 8192)
    ∷ (codes "high", pos 24576)
    ∷ (codes "xhigh", pos 32768)
    ∷ (codes "max", pos 128000)
    ∷ []

unfoldable pub convert_level_to_budget : Bytes → Option ℤ
convert_level_to_budget level = lookup (to_lower level) level_to_budget_map

unfoldable pub convert_budget_to_level : ℤ → Option Bytes
convert_budget_to_level (negsuc n) = if nat_eq n 0 then some (codes "auto") else none
convert_budget_to_level (pos n) =
    if nat_eq n 0
    then some (codes "none")
    else if leb n 512
    then some (codes "minimal")
    else if leb n 1024
    then some (codes "low")
    else if leb n 8192
    then some (codes "medium")
    else if leb n 24576
    then some (codes "high")
    else some (codes "xhigh")

unfoldable pub has_level : List Bytes → Bytes → Bool
has_level levels target = any (λ level. equal_fold (trim_space level) target) levels

unfoldable pub map_to_claude_effort : Bytes → Bool → Option Bytes
map_to_claude_effort raw supports_max =
    let level = to_lower (trim_space raw) in
    if level == []
    then none
    else if level == codes "minimal"
    then some (codes "low")
    else if level == codes "low" || level == codes "medium" || level == codes "high"
    then some level
    else if level == codes "xhigh" || level == codes "max"
    then some (if supports_max then codes "max" else codes "high")
    else if level == codes "auto"
    then some (codes "high")
    else none
