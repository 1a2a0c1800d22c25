-- ===== src/Thinking/Levels/Examples.antt =====
-- Conversions at concrete levels.
use cpa_github_copilot.Common.{
  ◌≡◌, refl, ◌⊎◌, Bool, true, false, Option, none, some, [], ◌∷◌, codes, to_lower, pos, Map, lookup,
  bytes_eq,
}
use cpa_github_copilot.Thinking.Levels.{map_to_claude_effort, has_level}

clamped_effort : map_to_claude_effort (codes " XHigh ") false ≡ some (codes "high")
unfolding map_to_claude_effort bytes_eq to_lower cpa_github_copilot.Common.trim_space
clamped_effort = refl

known_level : has_level (codes " Low" ∷ codes "MAX " ∷ []) (codes "max") ≡ true
unfolding has_level cpa_github_copilot.Common.equal_fold cpa_github_copilot.Common.trim_space
known_level = refl
