-- ===== src/Copilot/Payload.antt =====
-- internal/copilot/executor.go: the normalization of the decoded body of a request for its route:
-- Chat Completions, Responses, and the effort of Messages. `grok` stands for
-- normalizeGrokResponsesRequest, any function. The flags that report a change are not modelled.
mod Members
mod Chat
mod Kept
mod Effort
mod Examples
use cpa_github_copilot.Common.{
  ℕ, ◌+◌, ◌-◌, ◌*◌, ◌/◌, Bool, true, false, not, ◌&&◌, ◌||◌, Option, none, some, List, [], ◌∷◌,
  ◌++◌, if◌then◌else◌, any, length, get_elem?, Bytes, Bytes_eq, Eq, ◌==◌, codes, trim_space,
  to_lower, equal_fold, has_prefix, ℤ, pos, negsuc, ltb_ℤ, leb_ℤ,
}
use cpa_github_copilot.Common.Json.{
  Json, boolean, number, string, array, object, Items, nil, cons, Fields, end, field,
}
use cpa_github_copilot.Copilot.Catalog.{ModelRoute, clean_levels}
use cpa_github_copilot.Copilot.Terminal.{get, put, fields_of, string_value}
use cpa_github_copilot.Copilot.Prepare.{declares_reasoning_level}

-- `_, exists := payload[key]`.
unfoldable pub has_field : Bytes → Fields → Bool
has_field key end = false
has_field key (field k v fields) = k == key || has_field key fields

-- `delete(payload, key)`.
unfoldable pub remove : Bytes → Fields → Fields
remove key end = end
remove key (field k v fields) =
    let rest = remove key fields in if k == key then rest else field k v rest

abbrev pub is_end : Fields → Bool
is_end end = true
is_end (field k v fields) = false

-- The role of one message.
pub system_role : Json → Json
system_role (object message) =
    if equal_fold (string_value (get (codes "role") message)) (codes "developer")
    then object (put (codes "role") (string (codes "system")) message)
    else object message
system_role other = other

pub system_roles : Items → Items
unfolding system_role
system_roles nil = nil
system_roles (cons message messages) = cons (system_role message) (system_roles messages)

-- The undeclared effort of Chat Completions is dropped.
pub drop_undeclared_effort : Fields → List Bytes → Fields
drop_undeclared_effort payload levels =
    if has_field (codes "reasoning_effort") payload
      && not
          (declares_reasoning_level levels (string_value (get (codes "reasoning_effort") payload)))
    then remove (codes "reasoning_effort") payload
    else payload

unfoldable pub normalize_openai_compatibility : Fields → ModelRoute → Fields
unfolding drop_undeclared_effort system_roles
normalize_openai_compatibility payload route =
    let cleaned = drop_undeclared_effort (remove (codes "store") payload) route.reasoning_levels in
    elim (get (codes "messages") cleaned) [
      | array messages ↦ put (codes "messages") (array (system_roles messages)) cleaned
      | _ ↦ cleaned
    ]

abbrev pub excluded_families : List Bytes
excluded_families = codes "gpt-5" ∷ codes "gpt-5.1" ∷ codes "gpt-5.2" ∷ []

pub responses_compaction_threshold : ℤ → ℤ
responses_compaction_threshold (pos n) =
    if ltb_ℤ (pos 0) (pos n) then pos (n * 9 / 10) else pos 50000
responses_compaction_threshold (negsuc n) = pos 50000

unfoldable pub is_grok_responses_route : Fields → ModelRoute → Bool
is_grok_responses_route payload route =
    let family = to_lower (trim_space route.family) in
    if not (family == [])
    then has_prefix (codes "grok") family
    else has_prefix (codes "grok-")
        (to_lower (trim_space (string_value (get (codes "model") payload))))

-- The members of `reasoning` that go out.
pub kept_reasoning : List Bytes → Bool → Fields → Fields
kept_reasoning levels is_grok reasoning =
    let effort = to_lower (string_value (get (codes "effort") reasoning)) in
    let undeclared = not (effort == []) && not (declares_reasoning_level levels effort) in
    let declared = if undeclared then remove (codes "effort") reasoning else reasoning in
    if is_grok then remove (codes "summary") declared else declared

-- What is done to `reasoning`: without members, or where it is turned off, it is dropped.
pub normalize_reasoning : List Bytes → Bool → Fields → Fields
unfolding kept_reasoning
normalize_reasoning levels is_grok payload = elim (get (codes "reasoning") payload) [
  | object reasoning ↦
      let effort = to_lower (string_value (get (codes "effort") reasoning)) in
      let kept = kept_reasoning levels is_grok reasoning in
      if is_end reasoning || effort == codes "none" || effort == codes "off" || is_end kept
      then remove (codes "reasoning") payload
      else put (codes "reasoning") (object kept) payload
  | _ ↦ payload
]

-- `text` of a Grok route loses its verbosity.
pub normalize_text : Fields → Fields
normalize_text payload = elim (get (codes "text") payload) [
  | object text ↦
      let kept = remove (codes "verbosity") text in
      if is_end kept
      then remove (codes "text") payload
      else put (codes "text") (object kept) payload
  | _ ↦ payload
]

abbrev pub put_missing : Bytes → Json → Fields → Fields
put_missing key value payload = if has_field key payload then payload else put key value payload

pub compaction : ModelRoute → Json
unfolding responses_compaction_threshold
compaction route = array (
    cons
      (object (
        field (codes "type") (string (codes "compaction")) (
          field (codes "compact_threshold")
            (number (responses_compaction_threshold route.max_prompt_tokens)) end)))
      nil)

-- The defaults for what the caller does not give.
pub put_defaults : ModelRoute → Bool → Bool → Fields → Fields
unfolding compaction
put_defaults route is_grok enabled payload =
    let family = to_lower (trim_space route.family) in
    let dated = put_missing (codes "truncation") (string (codes "disabled")) payload in
    let included =
      put_missing (codes "include")
        (array (cons (string (codes "reasoning.encrypted_content")) nil)) dated in
    if enabled
      && not is_grok
      && not (family == [])
      && not (any (λ f. f == family) excluded_families)
    then put_missing (codes "context_management") (compaction route) included
    else included

unfoldable pub normalize_openai_responses_compatibility :
    (Fields → Fields) → Fields → ModelRoute → Bool → Fields
unfolding normalize_reasoning normalize_text put_defaults
normalize_openai_responses_compatibility grok payload route enabled =
    let stateless = put (codes "store") (boolean false) payload in
    let is_grok = is_grok_responses_route stateless route in
    let reasoned = normalize_reasoning route.reasoning_levels is_grok stateless in
    put_defaults route is_grok enabled
      (if is_grok then grok (normalize_text reasoned) else reasoned)

unfoldable pub default_reasoning_effort : List Bytes → Bytes
default_reasoning_effort raw =
    let levels = clean_levels raw in
    if declares_reasoning_level levels (codes "medium")
    then codes "medium"
    else elim (get_elem? levels ((length levels - 1) / 2)) [ none ↦ [] | some level ↦ level ]

-- The members of `output_config` that go out.
pub kept_output_config : ModelRoute → Bool → Fields → Fields
kept_output_config route enabled config =
    let effort = to_lower (trim_space (string_value (get (codes "effort") config))) in
    let default = default_reasoning_effort route.reasoning_levels in
    let chosen =
      if default == [] && route.adaptive_thinking && not route.reasoning_levels_declared
      then codes "high"
      else default in
    let unusable =
      not enabled
      || (not route.reasoning_levels_declared && not route.adaptive_thinking)
      || (not (effort == [])
          && route.reasoning_levels_declared
          && not (declares_reasoning_level route.reasoning_levels effort)) in
    if unusable
    then remove (codes "effort") config
    else if effort == []
    then (if chosen == [] then config else put (codes "effort") (string chosen) config)
    else put (codes "effort") (string effort) config

pub put_output_config : ModelRoute → Bool → Fields → Fields → Fields
unfolding kept_output_config
put_output_config route enabled config payload =
    let kept = kept_output_config route enabled config in
    if is_end kept
    then remove (codes "output_config") payload
    else put (codes "output_config") (object kept) payload

unfoldable pub normalize_anthropic_reasoning_effort : Fields → ModelRoute → Bool → Fields
unfolding put_output_config
normalize_anthropic_reasoning_effort payload route enabled =
    elim (get (codes "output_config") payload) [
      | object config ↦ put_output_config route enabled config payload
      | _ ↦ if enabled then put_output_config route enabled end payload else payload
    ]
