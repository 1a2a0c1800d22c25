-- ===== src/Copilot/Catalog/Examples.antt =====
-- internal/copilot/models.go: a small catalog and its routes.
use cpa_github_copilot.Common.{
  ◌≡◌, Bool, true, false, Option, none, some, List, [], ◌∷◌, All, Bytes, Bytes_eq, bytes_eq, codes,
  trim_space, pos, lookup,
}
use cpa_github_copilot.Copilot.Models.{openai_response}
use cpa_github_copilot.Copilot.Catalog.{
  RemoteModel, StoredModel, RouteKey_eq, CatalogStorage, parse_discovered_models, set_model_routes,
  stored_model, route_for_stored_model, endpoint_path, trim_id,
}
use cpa_github_copilot.Copilot.Catalog.Discovered.{Usable, Distinct, parse_discovered_models-Usable}
use cpa_github_copilot.Copilot.Catalog.Routes.{set_model_routes_lem}

named : Bytes → Bytes → Bool → RemoteModel
named id policy picked = record {
  id = id;
  name = [];
  version = [];
  model_picker_enabled = picked;
  supported_endpoints = codes "/responses" ∷ [];
  policy_state = policy;
  family = [];
  max_context_window_tokens = pos 0;
  max_output_tokens = pos 0;
  max_prompt_tokens = pos 0;
  supported_media_types = [];
  adaptive_thinking = false;
  max_thinking_budget = pos 0;
  min_thinking_budget = pos 0;
  reasoning_effort = none;
  streaming = none;
  tool_calls = none;
  vision = false;
  tool_search = none;
  context_editing = none;
}

grok : RemoteModel
unfolding named
grok = named (codes " grok-4") (codes "enabled") false

answer : List (Option RemoteModel)
unfolding grok
answer = none ∷ some grok ∷ some grok ∷ []

parse_discovered_models-Usable_example :
    All Usable (parse_discovered_models answer true)
    × Distinct (parse_discovered_models answer true)
parse_discovered_models-Usable_example = parse_discovered_models-Usable answer true

stored_grok : StoredModel
unfolding stored_model grok
stored_grok = stored_model (trim_id grok) openai_response

set_model_routes_lem_example :
    lookup
      (record { auth_id = codes "a"; model_id = codes "grok-4" })
      (set_model_routes (codes " a") (stored_grok ∷ []) [])
    ≡ some (route_for_stored_model stored_grok)
unfolding stored_grok trim_id trim_space bytes_eq lookup endpoint_path route_for_stored_model
set_model_routes_lem_example =
    set_model_routes_lem (codes " a") (codes "a") (codes "grok-4") (stored_grok ∷ []) []

empty_storage : CatalogStorage
empty_storage = record { models = []; models_fetched_at = pos 5 }
