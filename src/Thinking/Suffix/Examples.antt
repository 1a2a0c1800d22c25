-- ===== src/Thinking/Suffix/Examples.antt =====
-- Suffixes of model names.
use cpa_github_copilot.Common.{
  ◌≡◌, refl, ◌↔◌, Bool, true, false, Option, none, some, List, [], ◌∷◌, ◌++◌, Bytes, codes,
}
use cpa_github_copilot.Thinking.Suffix.{
  bare, parse_suffix, parse_level_suffix, parse_special_suffix, mode_auto,
}
use cpa_github_copilot.Thinking.Suffix.Printed.{suffixed, print_suffix, parse_suffix-print_suffix}

without_suffix : parse_suffix (codes "gpt(5") ≡ bare (codes "gpt(5")
unfolding parse_suffix
without_suffix = refl

auto_suffix : parse_special_suffix (codes "Auto") ≡ some mode_auto
unfolding parse_special_suffix cpa_github_copilot.Common.bytes_eq cpa_github_copilot.Common.to_lower
auto_suffix = refl

level_suffix : parse_level_suffix (codes "HIGH") ≡ some (codes "high")
unfolding parse_level_suffix cpa_github_copilot.Common.bytes_eq cpa_github_copilot.Common.to_lower
level_suffix = refl

parse_suffix-print_suffix_example :
    (parse_suffix (codes "gpt-5.2(high)") ≡ suffixed (codes "gpt-5.2") (codes "high"))
    ↔ (codes "gpt-5.2(high)" ≡ print_suffix (codes "gpt-5.2") (codes "high"))
unfolding cpa_github_copilot.Common.has_byte
parse_suffix-print_suffix_example =
    parse_suffix-print_suffix (codes "gpt-5.2(high)") (codes "gpt-5.2") (codes "high") refl
