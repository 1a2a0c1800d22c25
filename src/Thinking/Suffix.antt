-- ===== src/Thinking/Suffix.antt =====
-- internal/thinking/suffix.go: suffixes of model names, as in "gpt-5.2(high)". `atoi` stands for
-- `strconv.Atoi`, `none` where it fails.
mod Printed
mod Examples
use cpa_github_copilot.Common.{
  ℕ, Bool, true, false, ◌&&◌, ◌||◌, Option, none, some, List, [], ◌∷◌, ◌++◌, if◌then◌else◌, nat_eq,
  Bytes, Bytes_eq, Eq, ◌==◌, codes, to_lower, ℤ, pos, negsuc,
}

pub record SuffixResult : Type 0 where
  pub model_name : Bytes
  pub has_suffix : Bool
  pub raw_suffix : Bytes

pub data ThinkingMode : Type 0 where
  mode_budget mode_level mode_none mode_auto : ThinkingMode

-- The slices before and after the byte at `strings.LastIndex`.
unfoldable pub cut_last : ℕ → Bytes → Option (Bytes × Bytes)
cut_last b [] = none
cut_last b (c ∷ s) = elim (cut_last b s) [
  | some (before, after) ↦ some (c ∷ before, after)
  | none ↦ if nat_eq c b then some ([], s) else none
]

-- The slice without the last byte, if that is the one asked for.
unfoldable pub cut_end : ℕ → Bytes → Option Bytes
cut_end b [] = none
cut_end b (c ∷ []) = if nat_eq c b then some [] else none
cut_end b (c ∷ d ∷ s) = elim (cut_end b (d ∷ s)) [ some rest ↦ some (c ∷ rest) | none ↦ none ]

abbrev pub bare : Bytes → SuffixResult
bare model = record { model_name = model; has_suffix = false; raw_suffix = [] }

-- `ParseSuffix`. The closing parenthesis is behind the opening one, so it is looked for there.
unfoldable pub parse_suffix : Bytes → SuffixResult
unfolding cut_last cut_end
parse_suffix model = elim (cut_last 40 model) [
  | none ↦ bare model
  | some (name, after) ↦ elim (cut_end 41 after) [
    | none ↦ bare model
    | some raw ↦ record { model_name = name; has_suffix = true; raw_suffix = raw }
  ]
]

unfoldable pub parse_numeric_suffix : (Bytes → Option ℤ) → Bytes → Option ℕ
parse_numeric_suffix atoi raw =
    if raw == []
    then none
    else elim (atoi raw) [ some (pos n) ↦ some n | some (negsuc n) ↦ none | none ↦ none ]

unfoldable pub parse_special_suffix : Bytes → Option ThinkingMode
parse_special_suffix raw =
    let s = to_lower raw in
    if raw == []
    then none
    else if s == codes "none"
    then some mode_none
    else if s == codes "auto" || s == codes "-1"
    then some mode_auto
    else none

-- The level, in lower case.
unfoldable pub parse_level_suffix : Bytes → Option Bytes
parse_level_suffix raw =
    let s = to_lower raw in
    if raw == []
    then none
    else if s == codes "minimal"
        || s == codes "low"
        || s == codes "medium"
        || s == codes "high"
        || s == codes "xhigh"
        || s == codes "max"
    then some s
    else none
