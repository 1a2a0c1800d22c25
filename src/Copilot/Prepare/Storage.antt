-- ===== src/Copilot/Prepare/Storage.antt =====
-- internal/copilot/auth.go: `decodeCopilotStorage` behind `json.Unmarshal`. `normalize` stands for
-- normalizeGitHubHost (Copilot/Endpoints) at the parsers of URLs and addresses.
use cpa_github_copilot.Common.{
  false, not, ◌&&◌, Option, none, some, List, [], ◌∷◌, if◌then◌else◌, Bytes, Bytes_eq, ◌==◌, codes,
  trim_space, to_lower, ℤ, pos, eq_ℤ,
}
use cpa_github_copilot.Copilot.Models.{is_supported_copilot_model_id, infer_model_format}
use cpa_github_copilot.Copilot.Catalog.{StoredModel, CatalogStorage, is_empty}
use cpa_github_copilot.Copilot.Endpoints.{default_github_host}

-- `copilotStorage`, but for what only the login and the display use.
pub record CopilotStorage : Type 0 where
  pub type_name : Bytes
  pub github_access_token : Bytes
  pub copilot_session_token : Bytes
  pub refresh_after : ℤ
  pub expires_at : ℤ
  pub github_host : Bytes
  pub models : List StoredModel
  pub models_fetched_at : ℤ
  pub legacy_refresh : Bytes
  pub legacy_access : Bytes
  pub legacy_expires : ℤ
  pub legacy_enterprise_url : Bytes
  pub legacy_available_models : List Bytes

abbrev pub provider_identifier : Bytes
provider_identifier = codes "github-copilot"

-- `storedModel{ID: id, Name: id, Format: inferModelFormat(id)}`.
pub legacy_model : Bytes → StoredModel
legacy_model id = record {
  id = id;
  name = id;
  version = [];
  family = [];
  format = infer_model_format id;
  context_window = pos 0;
  max_prompt_tokens = pos 0;
  max_output_tokens = pos 0;
  input_modalities = [];
  reasoning_levels = [];
  reasoning_levels_declared = false;
  min_thinking = pos 0;
  max_thinking = pos 0;
  adaptive_thinking = false;
  streaming = none;
  supports_tool_search = none;
  supports_context_editing = none;
}

-- The loop over the model IDs of an old credential.
pub legacy_models : List Bytes → List StoredModel
unfolding legacy_model
legacy_models [] = []
legacy_models (raw ∷ ids) =
    let id = trim_space raw in
    let rest = legacy_models ids in
    if not (id == []) && is_supported_copilot_model_id id then legacy_model id ∷ rest else rest

module _ (normalize : Bytes → Option Bytes) where
  -- The GitHub host, with the two defaults.
  pub host_of : Bytes → Bytes → Bytes
  host_of host enterprise_url =
      let legacy : Bytes = elim (normalize enterprise_url) [ none ↦ [] | some h ↦ h ] in
      let found = if host == [] && not (enterprise_url == []) then legacy else host in
      if found == [] then default_github_host else found

  unfoldable pub decode_copilot_storage : Option CopilotStorage → Option CopilotStorage
  unfolding host_of legacy_models
  decode_copilot_storage none = none
  decode_copilot_storage (some s) =
      let type_name = to_lower (trim_space s.type_name) in
      if not (type_name == provider_identifier)
      then none
      else some (record {
        type_name = type_name;
        github_access_token =
            if s.github_access_token == [] then s.legacy_refresh else s.github_access_token;
        copilot_session_token =
            if s.copilot_session_token == [] then s.legacy_access else s.copilot_session_token;
        refresh_after = if eq_ℤ s.refresh_after (pos 0) then s.legacy_expires else s.refresh_after;
        expires_at = s.expires_at;
        github_host = host_of s.github_host s.legacy_enterprise_url;
        models = if is_empty s.models then legacy_models s.legacy_available_models else s.models;
        models_fetched_at = s.models_fetched_at;
        legacy_refresh = [];
        legacy_access = [];
        legacy_expires = pos 0;
        legacy_enterprise_url = [];
        legacy_available_models = [];
      })

-- What routing reads of it.
abbrev pub catalog_of : CopilotStorage → CatalogStorage
catalog_of s = record { models = s.models; models_fetched_at = s.models_fetched_at }
