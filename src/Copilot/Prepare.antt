-- ===== src/Copilot/Prepare.antt =====
-- internal/copilot/executor.go: `prepareInference`, from the request of a client to the request to
-- the service, or the error. Parameters stand for what is not modelled: the decoding of JSON, the
-- table of converters and the normalization of the payload for a route, any functions.
mod Storage
mod Request
mod Steps
mod Checked
mod Examples
unfoldable pub use Storage.*
unfoldable pub use Request.*
use cpa_github_copilot.Common.{
  ℕ, ◌+◌, ◌*◌, Bool, true, false, not, ◌&&◌, ◌||◌, Option, none, some, List, [], ◌∷◌, ◌++◌,
  if◌then◌else◌, any, ltb, length, drop, Bytes, Bytes_eq, Eq, ◌==◌, codes, trim_space, to_lower,
  equal_fold, has_prefix, Map, ℤ, ltb_ℤ, pos, pos_part,
}
use cpa_github_copilot.Common.Json.{Json, object, string, Fields, end}
use cpa_github_copilot.Copilot.Models.{
  Format, unknown, openai, openai_response, claude, same_format,
}
use cpa_github_copilot.Copilot.Catalog.{ModelRoute, RouteKey, RouteKey_eq, resolve_model_route}
use cpa_github_copilot.Copilot.Terminal.{
  Protocol, chat, responses, codex, messages, other_protocol, get, fields_of, string_value,
}

-- `if !condition { return …, error }`, and the same of a result that there may not be.
pub require : Bool → ServiceError → Preparation → Preparation
require true error rest = rest
require false error rest = rejected error

pub require_some : {A : Type 0} → Option A → ServiceError → (A → Preparation) → Preparation
require_some none error rest = rejected error
require_some (some a) error rest = rest a

abbrev pub refusal : Bytes → ℕ → ServiceError
refusal code status = record { code = code; http_status = status }

-- The functions that are parameters: `json.Valid`; the decoding of the body into a map, into the
-- parts with state and into its model; normalizeGitHubHost and apiBaseFromSessionToken
-- (Copilot/Endpoints); the converters; preserveAnthropicReasoningEffort and
-- normalizeInferencePayloadForRoute.
pub record Services : Type 0 where
  pub json_valid : Bytes → Bool
  pub decode_body : Bytes → Option Fields
  pub decode_state : Bytes → Option StateRoot
  pub decode_model : Bytes → Option Bytes
  pub normalize_host : Bytes → Option Bytes
  pub api_base : Bytes → Bytes → Bytes
  pub has_request_transformer : Protocol → Protocol → Bool
  pub has_stream_transformer : Protocol → Protocol → Bool
  pub translate_request : Protocol → Protocol → Bytes → ModelRoute → Bytes → Bool → Bytes
  pub preserve_effort : Bytes → Bytes → Bytes
  pub normalize_payload : Bytes → Bytes → ModelRoute → Bool → Option Bytes

module _ (services : Services) where
  pub model_from_payload : Bytes → Bytes
  unfolding normalize_model_id
  model_from_payload raw = elim (services.decode_model raw) [
    | none ↦ []
    | some model ↦ normalize_model_id model
  ]

  pub requested_model : ExecutorRequest → Bytes
  unfolding normalize_model_id model_from_payload
  requested_model req =
      let model = normalize_model_id req.model in
      if model == [] then model_from_payload req.payload else model

  pub input_format_of : ExecutorRequest → Format
  input_format_of req =
      let source = normalize_format req.source_format in
      if same_format source unknown then normalize_format req.format else source

  pub output_format_of : ExecutorRequest → Format
  unfolding input_format_of
  output_format_of req =
      let output = normalize_format req.format in
      if same_format output unknown then input_format_of req else output

  -- The body in the route's format: converted if need be, with a declared effort kept.
  pub translated_payload : ExecutorRequest → Bytes → ModelRoute → Format → Protocol → Bool → Bytes
  translated_payload req model route input target stream =
      let converted =
        if same_protocol (protocol_of input) target
        then req.payload
        else services.translate_request (protocol_of input) target model route req.payload stream in
      let effort = reasoning_effort_of (services.decode_body req.payload) input in
      if same_format route.format claude && declares_reasoning_level route.reasoning_levels effort
      then services.preserve_effort converted effort
      else converted

  -- The request that is sent.
  pub send : ExecutorRequest → Bool → CopilotStorage → Bytes → Bytes → ModelRoute → Preparation
  unfolding input_format_of output_format_of translated_payload
  send req stream storage github_host model route =
      let input = input_format_of req in
      let output = output_format_of req in
      let target = translator_target_format route.format input in
      let converted = translated_payload req model route input target stream in
      require_some (services.normalize_payload converted model route stream)
        (refusal (codes "invalid_request") 400)
        (λ payload.
          let base = services.api_base storage.copilot_session_token github_host in
          require (not (base == [])) (refusal (codes "invalid_auth") 0) (
            require
              (not stream
                || same_protocol target (protocol_of output)
                || services.has_stream_transformer (protocol_of output) target)
              (refusal (codes "format_mismatch") 400)
              (ready (record {
                storage = storage;
                model = model;
                input_format = input;
                output_format = output;
                upstream_format = route.format;
                translator_format = target;
                upstream_url = base ++ route.path;
                upstream_path = route.path;
                upstream_payload = payload;
              }))))

  -- Whether a body with Responses state stays in that protocol all the way.
  unfoldable pub keeps_state : ExecutorRequest → ModelRoute → Bool
  unfolding input_format_of output_format_of responses_stateful_markers_present
  keeps_state req route =
      let input = input_format_of req in
      let native =
        same_format (output_format_of req) openai_response
        && same_format route.format openai_response
        && same_protocol (translator_target_format route.format input) responses in
      not (
        same_format input openai_response
        && responses_stateful_markers_present (services.decode_state req.payload))
      || native

  -- The checks against the route.
  pub check_route :
      ExecutorRequest → Bool → CopilotStorage → Bytes → Bytes → ModelRoute → Preparation
  unfolding input_format_of keeps_state send
  check_route req stream storage github_host model route =
      let input = input_format_of req in
      let target = translator_target_format route.format input in
      require (not (route.path == []) && not (same_format route.format unknown))
        (refusal (codes "model_not_supported") 400)
        (require (not (req.payload == []) && services.json_valid req.payload)
          (refusal (codes "invalid_request") 400)
          (require (not stream || elim route.streaming [ none ↦ false | some on ↦ on ])
            (refusal (codes "unsupported_feature") 400)
            (require (keeps_state req route) (refusal (codes "format_mismatch") 400) (
              require
                (same_protocol (protocol_of input) target
                  || services.has_request_transformer (protocol_of input) target)
                (refusal (codes "format_mismatch") 400)
                (send req stream storage github_host model route)))))

  -- `prepareInference`. `own_host` is the configured GitHub host, `routes` the table of routes.
  unfoldable pub prepare_inference :
      ℕ → Bytes → Map RouteKey ModelRoute → ExecutorRequest → Bool → Preparation
  unfolding requested_model input_format_of output_format_of check_route is_live
      decode_copilot_storage
  prepare_inference now own_host routes req stream =
      require (not (trim_space req.alt == codes "responses/compact"))
        (refusal (codes "unsupported_feature") 501)
        (require_some (decode_copilot_storage services.normalize_host req.storage)
          (refusal (codes "invalid_auth") 401)
          (λ storage.
            require (not (trim_space storage.github_access_token == []))
              (refusal (codes "invalid_auth") 401)
              (require (is_live now storage) (refusal (codes "reauth_required") 401) (
                require_some (services.normalize_host storage.github_host)
                  (refusal (codes "invalid_auth") 0)
                  (λ github_host.
                    require (github_host == own_host) (refusal (codes "invalid_auth") 0) (
                      require (not (requested_model req == []))
                        (refusal (codes "invalid_request") 400)
                        (require
                          (not (
                            same_format (input_format_of req) unknown
                            || same_format (output_format_of req) unknown))
                          (refusal (codes "format_mismatch") 400)
                          (check_route req stream storage github_host (requested_model req) (
                            resolve_model_route req.auth_id (requested_model req)
                              (catalog_of storage) routes)))))))))
