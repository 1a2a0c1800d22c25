-- ===== src/Copilot/Models.antt =====
-- internal/copilot/models.go: which model IDs the service accepts, and the upstream format of one.
-- IDs are ASCII, so white space and case are those of ASCII. A number is not bounded by int, since
-- `leadingNumber` gives up above a million.
mod Numbers
mod Gate
mod Formats
mod Examples
use cpa_github_copilot.Common.{
  ℕ, ◌+◌, ◌-◌, ◌*◌, Bool, true, false, not, ◌&&◌, ◌||◌, Option, none, some, List, [], ◌∷◌, ltb, leb,
  nat_eq, if◌then◌else◌, any, Bytes, Bytes_eq, Eq, ◌==◌, codes, trim_space, to_lower, cut_prefix,
  has_prefix, has_byte, is_digit, split, join,
}

-- `value[:end]`, the digits in front, and `value[end:]`.
pub span_digits : Bytes → Bytes × Bytes
span_digits [] = ([], [])
span_digits (c ∷ s) =
    let (digits, rest) = span_digits s in if is_digit c then (c ∷ digits, rest) else ([], c ∷ s)

-- The loop over the digits, which gives up above a million.
pub accumulate : ℕ → Bytes → Option ℕ
accumulate major [] = some major
accumulate major (digit ∷ digits) =
    let next = major * 10 + (digit - 48) in
    let rest = accumulate next digits in if ltb 1000000 next then none else rest

-- `leadingNumber`: the number in front and the rest, or not `ok`.
pub leading_number : Bytes → Option (ℕ × Bytes)
unfolding span_digits accumulate is_digit
leading_number value =
    let (digits, rest) = span_digits value in
    if digits == []
    then none
    else elim (accumulate 0 digits) [ none ↦ none | some major ↦ some (major, rest) ]

abbrev pub dash : ℕ
dash = 45

abbrev pub dot : ℕ
dot = 46

abbrev pub claude_prefix : Bytes
claude_prefix = codes "claude-"

abbrev pub gpt_prefix : Bytes
gpt_prefix = codes "gpt-"

-- `rest == "" || strings.HasPrefix(rest, "-")`.
pub ends_part : Bytes → Bool
ends_part [] = true
ends_part (c ∷ s) = nat_eq c dash

pub starts_with_digit : Bytes → Bool
starts_with_digit [] = false
starts_with_digit (c ∷ s) = is_digit c

-- `segments[versionStart:]`, of the segments after the first; `[]` where there is no version.
pub version_segments : List Bytes → List Bytes
unfolding starts_with_digit
version_segments [] = []
version_segments (s ∷ segments) =
    let rest = version_segments segments in if starts_with_digit s then s ∷ segments else rest

-- The tests on what follows the major version.
pub accepts_minor : Bytes → Bool
unfolding leading_number ends_part
accepts_minor [] = false
accepts_minor (c ∷ s) =
    nat_eq c dash
    && elim (leading_number s) [ none ↦ false | some (minor, rest) ↦ leb 1 minor && ends_part rest ]

pub accepts_claude_version : Bytes → Bool
unfolding accepts_minor
accepts_claude_version version = not (has_byte dot version) && elim (leading_number version) [
  | none ↦ false
  | some (major, rest) ↦
      if ltb 5 major then ends_part rest else nat_eq major 5 && accepts_minor rest
]

-- `segments[i:]` from the second segment on.
abbrev pub later_segments : List Bytes → List Bytes
later_segments [] = []
later_segments (s ∷ segments) = segments

-- `versionStart < 0`, or the version that begins there.
pub accepts_segments : List Bytes → Bool
unfolding accepts_claude_version
accepts_segments [] = false
accepts_segments (s ∷ segments) = accepts_claude_version (join dash (s ∷ segments))

pub accepts_claude_name : Bytes → Bool
unfolding version_segments accepts_segments
accepts_claude_name rest = accepts_segments (version_segments (later_segments (split dash rest)))

pub is_copilot_claude : Bytes → Bool
unfolding accepts_claude_name
is_copilot_claude model_id = elim (cut_prefix claude_prefix (to_lower (trim_space model_id))) [
  | none ↦ false
  | some rest ↦ not (rest == []) && accepts_claude_name rest
]

-- `rest == "" || strings.HasPrefix(rest, ".") || strings.HasPrefix(rest, "-")`.
pub ends_gpt_major : Bytes → Bool
ends_gpt_major [] = true
ends_gpt_major (c ∷ s) = nat_eq c dot || nat_eq c dash

pub accepts_gpt_version : Bytes → Bool
unfolding leading_number ends_gpt_major
accepts_gpt_version version = elim (leading_number version) [
  | none ↦ false
  | some (major, rest) ↦ leb 6 major && ends_gpt_major rest
]

pub is_copilot_gpt : Bytes → Bool
unfolding accepts_gpt_version
is_copilot_gpt model_id = elim (cut_prefix gpt_prefix (to_lower (trim_space model_id))) [
  | none ↦ false
  | some version ↦ not (version == []) && accepts_gpt_version version
]

-- `IsSupportedCopilotModelID`.
unfoldable pub is_supported_copilot_model_id : Bytes → Bool
unfolding is_copilot_claude is_copilot_gpt
is_supported_copilot_model_id model_id =
    let id = to_lower (trim_space model_id) in
    if has_prefix claude_prefix id
    then is_copilot_claude id
    else if has_prefix gpt_prefix id
    then is_copilot_gpt id
    else true

-- The formats, with "" as `unknown`.
pub data Format : Type 0 where
  unknown openai openai_response claude : Format

unfoldable pub infer_model_format : Bytes → Format
unfolding is_supported_copilot_model_id
infer_model_format model_id =
    let id = to_lower (trim_space model_id) in
    if not (is_supported_copilot_model_id model_id)
    then unknown
    else if is_copilot_claude id
    then claude
    else if has_prefix (codes "grok-") id
        || is_copilot_gpt id
        || has_prefix (codes "oswe") id
        || has_prefix (codes "mai-") id
    then openai_response
    else openai

-- The `switch` over a declared endpoint.
unfoldable pub endpoint_format : Bytes → Format
endpoint_format endpoint =
    let e = trim_space (to_lower endpoint) in
    if e == codes "/v1/messages" || e == codes "/messages"
    then claude
    else if e == codes "/responses" || e == codes "/v1/responses"
    then openai_response
    else if e == codes "/chat/completions" || e == codes "/v1/chat/completions"
    then openai
    else unknown

unfoldable pub same_format : Format → Format → Bool
same_format unknown unknown = true
same_format openai openai = true
same_format openai_response openai_response = true
same_format claude claude = true
same_format _ _ = false

-- `available` and `hadDeclaredEndpoint`.
pub record Declared : Type 0 where
  pub has_claude : Bool
  pub has_responses : Bool
  pub has_openai : Bool
  pub had_endpoint : Bool

pub declare_endpoint : Declared → Bytes → Declared
unfolding same_format
declare_endpoint d endpoint =
    let f = endpoint_format endpoint in
    record {
      has_claude = d.has_claude || same_format f claude;
      has_responses = d.has_responses || same_format f openai_response;
      has_openai = d.has_openai || same_format f openai;
      had_endpoint = d.had_endpoint || not (trim_space endpoint == []);
    }

pub declare_all : Declared → List Bytes → Declared
unfolding declare_endpoint
declare_all d [] = d
declare_all d (endpoint ∷ endpoints) = declare_all (declare_endpoint d endpoint) endpoints

unfoldable pub select_model_format : Bytes → List Bytes → Format
unfolding declare_all
select_model_format model_id endpoints =
    let d =
      declare_all
        (record {
          has_claude = false;
          has_responses = false;
          has_openai = false;
          had_endpoint = false;
        })
        endpoints in
    if not (is_supported_copilot_model_id model_id)
    then unknown
    else if not (d.has_claude || d.has_responses || d.has_openai)
    then (if d.had_endpoint then unknown else infer_model_format model_id)
    else if d.has_responses
    then openai_response
    else if d.has_claude
    then claude
    else if d.has_openai
    then openai
    else unknown
