-- ===== src/Copilot/Prepare/Examples.antt =====
-- A request of the Responses protocol for a Grok model, and the theorems about it.
use cpa_github_copilot.Common.{
  ℕ, ◌+◌, ◌*◌, ◌≡◌, refl, Bool, true, false, not, ◌&&◌, ◌||◌, Option, none, some, List, [], ◌∷◌,
  ◌++◌, Bytes, codes, pos,
}
use cpa_github_copilot.Copilot.Models.{Format, openai_response, is_supported_copilot_model_id}
use cpa_github_copilot.Copilot.Catalog.{endpoint_path, resolve_model_route}
use cpa_github_copilot.Copilot.Prepare.{
  CopilotStorage, catalog_of, StateRoot, StateItem, ExecutorRequest, PreparedInference, Preparation,
  rejected, ready, refusal, Services, input_format_of, prepare_inference,
}
use cpa_github_copilot.Copilot.Prepare.Steps.{IsAddressed, IsRouted, IsStateful}
use cpa_github_copilot.Copilot.Prepare.Checked.{
  prepare_inference-IsRouted, prepare_inference-IsStateful,
}

host : Bytes
host = codes "github.com"

-- Services without converters; the body is one with state.
services : Services
unfolding host
services = record {
  json_valid = λ s. true;
  decode_body = λ s. none;
  decode_state =
      λ s. some (record { previous_response_id = codes "r1"; context_management = []; input = [] });
  decode_model = λ s. none;
  normalize_host = λ s. some host;
  api_base = λ token h. codes "https://api.githubcopilot.com";
  has_request_transformer = λ from to. false;
  has_stream_transformer = λ from to. false;
  translate_request = λ from to model route body stream. [];
  preserve_effort = λ body effort. body;
  normalize_payload = λ body model route stream. some body;
}

credential : CopilotStorage
unfolding host
credential = record {
  type_name = codes "GitHub-Copilot";
  github_access_token = [];
  copilot_session_token = codes "t";
  refresh_after = pos 0;
  expires_at = pos 9;
  github_host = host;
  models = [];
  models_fetched_at = pos 0;
  legacy_refresh = codes "g";
  legacy_access = [];
  legacy_expires = pos 0;
  legacy_enterprise_url = [];
  legacy_available_models = [];
}

request : Bytes → ExecutorRequest
unfolding credential
request format = record {
  auth_id = codes "a";
  model = codes "GitHub-Copilot/grok-4";
  format = format;
  source_format = [];
  alt = [];
  payload = codes "{}";
  storage = some credential;
}

-- The request that is sent.
sent : PreparedInference
unfolding credential host
sent = record {
  storage = record credential {
    type_name = codes "github-copilot";
    github_access_token = codes "g";
    legacy_refresh = [];
  };
  model = codes "grok-4";
  input_format = openai_response;
  output_format = openai_response;
  upstream_format = openai_response;
  translator_format = cpa_github_copilot.Copilot.Terminal.responses;
  upstream_url = codes "https://api.githubcopilot.com/responses";
  upstream_path = codes "/responses";
  upstream_payload = codes "{}";
}

is_sent : prepare_inference services 7 host [] (request (codes "responses")) false ≡ ready sent
unfolding prepare_inference services host request sent cpa_github_copilot.Copilot.Prepare.require
    cpa_github_copilot.Common.bytes_eq cpa_github_copilot.Common.trim_space
    cpa_github_copilot.Copilot.Prepare.require_some cpa_github_copilot.Common.to_lower
    cpa_github_copilot.Common.has_prefix cpa_github_copilot.Copilot.Models.same_format
    cpa_github_copilot.Copilot.Prepare.normalize_format resolve_model_route
    is_supported_copilot_model_id cpa_github_copilot.Common.lookup endpoint_path
    cpa_github_copilot.Copilot.Models.infer_model_format cpa_github_copilot.Common.cut_prefix
    cpa_github_copilot.Copilot.Prepare.translator_target_format
is_sent = refl

-- A session that has expired is to be refreshed first.
expired_session :
    prepare_inference services 9000000 host [] (request (codes "responses")) false
    ≡ rejected (refusal (codes "reauth_required") 401)
unfolding prepare_inference services host request cpa_github_copilot.Copilot.Prepare.require
    cpa_github_copilot.Common.bytes_eq cpa_github_copilot.Common.trim_space
    cpa_github_copilot.Copilot.Prepare.require_some cpa_github_copilot.Common.to_lower
expired_session = refl

prepare_inference-IsRouted_example :
    IsAddressed services 7 host sent
    × IsRouted services
        (resolve_model_route (codes "a") sent.model (catalog_of sent.storage) [])
        false
        sent
    × (sent.upstream_path ≡ endpoint_path sent.upstream_format)
    × (is_supported_copilot_model_id sent.model ≡ true)
unfolding request
prepare_inference-IsRouted_example =
    prepare_inference-IsRouted services 7 host [] (request (codes "responses")) false sent tt
      is_sent

prepare_inference-IsStateful_example : IsStateful services (request (codes "responses")) sent
unfolding services request input_format_of cpa_github_copilot.Copilot.Models.same_format
    cpa_github_copilot.Copilot.Prepare.normalize_format cpa_github_copilot.Common.bytes_eq
    cpa_github_copilot.Common.to_lower cpa_github_copilot.Common.trim_space
    cpa_github_copilot.Copilot.Prepare.responses_stateful_markers_present
prepare_inference-IsStateful_example =
    prepare_inference-IsStateful services 7 host [] (request (codes "responses")) false sent is_sent
      refl refl
