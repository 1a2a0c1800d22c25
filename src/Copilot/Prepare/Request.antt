-- ===== src/Copilot/Prepare/Request.antt =====
-- internal/copilot/executor.go: requests before and after `prepareInference`, and what is read of them.
use cpa_github_copilot.Common.{
  ℕ, ◌+◌, ◌*◌, Bool, true, false, not, ◌&&◌, ◌||◌, Option, none, some, List, [], ◌++◌,
  if◌then◌else◌, any, ltb, length, drop, Bytes, Bytes_eq, ◌==◌, codes, trim_space, to_lower,
  equal_fold, has_prefix, ltb_ℤ, pos, pos_part,
}
use cpa_github_copilot.Common.Json.{Fields}
use cpa_github_copilot.Copilot.Models.{
  Format, unknown, openai, openai_response, claude, same_format,
}
use cpa_github_copilot.Copilot.Catalog.{RouteKey_eq}
use cpa_github_copilot.Copilot.Terminal.{
  Protocol, chat, responses, codex, messages, other_protocol, get, fields_of, string_value,
}
use cpa_github_copilot.Copilot.Prepare.Storage.{CopilotStorage, provider_identifier}

-- `contract.ExecutorRequest`, its credential decoded by `json.Unmarshal`.
pub record ExecutorRequest : Type 0 where
  pub auth_id : Bytes
  pub model : Bytes
  pub format : Bytes
  pub source_format : Bytes
  pub alt : Bytes
  pub payload : Bytes
  pub storage : Option CopilotStorage

-- The code and the HTTP status of a `serviceError`, 0 where it has none.
pub record ServiceError : Type 0 where
  pub code : Bytes
  pub http_status : ℕ

-- `preparedInference`, without the headers.
pub record PreparedInference : Type 0 where
  pub storage : CopilotStorage
  pub model : Bytes
  pub input_format : Format
  pub output_format : Format
  pub upstream_format : Format
  pub translator_format : Protocol
  pub upstream_url : Bytes
  pub upstream_path : Bytes
  pub upstream_payload : Bytes

pub data Preparation : Type 0 where
  rejected : ServiceError → Preparation
  ready : PreparedInference → Preparation

unfoldable pub normalize_format : Bytes → Format
normalize_format raw =
    let f = to_lower (trim_space raw) in
    if f == codes "openai" || f == codes "chat-completions" || f == codes "openai-completions"
    then openai
    else if f == codes "openai-response"
        || f == codes "openai-responses"
        || f == codes "responses"
        || f == codes "response"
    then openai_response
    else if f == codes "claude"
        || f == codes "anthropic"
        || f == codes "anthropic-messages"
        || f == codes "messages"
    then claude
    else unknown

-- A format as one of the converters' formats.
abbrev pub protocol_of : Format → Protocol
protocol_of openai = chat
protocol_of openai_response = responses
protocol_of claude = messages
protocol_of unknown = other_protocol

unfoldable pub translator_target_format : Format → Format → Protocol
translator_target_format wire input =
    if same_format wire openai_response && not (same_format input openai_response)
    then codex
    else protocol_of wire

abbrev pub same_protocol : Protocol → Protocol → Bool
same_protocol chat chat = true
same_protocol responses responses = true
same_protocol codex codex = true
same_protocol messages messages = true
same_protocol other_protocol other_protocol = true
same_protocol _ _ = false

unfoldable pub normalize_model_id : Bytes → Bytes
normalize_model_id raw =
    let model = trim_space raw in
    let size = length provider_identifier + 1 in
    if has_prefix (provider_identifier ++ codes "/") (to_lower model)
      || has_prefix (provider_identifier ++ codes ":") (to_lower model)
    then trim_space (drop size model)
    else model

-- The parts of the body that `responsesStatefulMarkersPresent` decodes. An item that does not
-- decode is `none`; `context_management` is its raw JSON.
pub record StateItem : Type 0 where
  pub type_name : Bytes
  pub encrypted_content : Bytes

pub record StateRoot : Type 0 where
  pub previous_response_id : Bytes
  pub context_management : Bytes
  pub input : List (Option StateItem)

pub is_state_item : Option StateItem → Bool
is_state_item none = false
is_state_item (some item) =
    item.type_name == codes "compaction"
    || (item.type_name == codes "reasoning" && not (trim_space item.encrypted_content == []))

unfoldable pub responses_stateful_markers_present : Option StateRoot → Bool
unfolding is_state_item
responses_stateful_markers_present none = false
responses_stateful_markers_present (some root) =
    let management = trim_space root.context_management in
    not (trim_space root.previous_response_id == [])
    || (not (management == []) && not (management == codes "null"))
    || any is_state_item root.input

unfoldable pub declares_reasoning_level : List Bytes → Bytes → Bool
declares_reasoning_level levels value =
    let v = to_lower (trim_space value) in not (v == []) && any (λ level. equal_fold level v) levels

-- `reasoningEffortFromPayload` of the decoded body.
unfoldable pub reasoning_effort_of : Option Fields → Format → Bytes
reasoning_effort_of none format = []
reasoning_effort_of (some payload) openai =
    to_lower (trim_space (string_value (get (codes "reasoning_effort") payload)))
reasoning_effort_of (some payload) openai_response =
    to_lower (
      trim_space
        (string_value (get (codes "effort") (fields_of (get (codes "reasoning") payload)))))
reasoning_effort_of (some payload) claude = to_lower (
    trim_space
      (string_value (get (codes "effort") (fields_of (get (codes "output_config") payload)))))
reasoning_effort_of (some payload) unknown = []

-- Whether a session token is there and has not expired at the time `now`.
unfoldable pub is_live : ℕ → CopilotStorage → Bool
is_live now s =
    not (trim_space s.copilot_session_token == [])
    && (not (ltb_ℤ (pos 0) s.expires_at) || ltb now (pos_part s.expires_at * 1000000))
