-- ===== src/Copilot/Catalog.antt =====
-- internal/copilot/models.go: the model catalog of an account, from the decoded answer of the
-- service to the stored models and their routes. An entry that does not decode is `none`.
mod Records
mod Discovered
pub mod Routes
mod Examples
pub use Records.*
use cpa_github_copilot.Common.{
  Bool, true, false, not, ◌&&◌, ◌||◌, Option, none, some, List, [], ◌∷◌, ◌++◌, if◌then◌else◌, any,
  keep_if, Bytes, Bytes_eq, Eq, ◌==◌, bytes_lt, bytes_eq, bytes_eq_iff, codes, trim_space, to_lower,
  equal_fold, has_prefix, sort, Map, lookup, insert, ℤ, pos, ltb_ℤ, ◌≡◌, ◌↔◌, arith,
}
use cpa_github_copilot.Copilot.Models.{
  Format, unknown, openai, openai_response, claude, is_supported_copilot_model_id,
  select_model_format, infer_model_format, same_format,
}

pub positive_int64 : ℤ → ℤ → ℤ
positive_int64 a b = if ltb_ℤ (pos 0) a then a else if ltb_ℤ (pos 0) b then b else pos 0

pub max_int64 : ℤ → ℤ → ℤ
max_int64 left right = if ltb_ℤ right left then left else right

pub value_or : Bytes → Bytes → Bytes
value_or value fallback = if not (trim_space value == []) then value else fallback

pub has_image_media_type : List Bytes → Bool
has_image_media_type values =
    any (λ v. has_prefix (codes "image/") (to_lower (trim_space v))) values

pub has_modality : List Bytes → Bytes → Bool
has_modality modalities want = any (λ m. equal_fold m want) modalities

-- The loop of `cleanLevels`, with what it has seen.
pub clean_from : List Bytes → List Bytes → List Bytes
clean_from seen [] = []
clean_from seen (l ∷ levels) =
    let level = to_lower (trim_space l) in
    let skipped = level == [] || level == codes "minimal" || any (λ s. s == level) seen in
    let rest = clean_from (if skipped then seen else level ∷ seen) levels in
    if skipped then rest else level ∷ rest

unfoldable pub clean_levels : List Bytes → List Bytes
unfolding clean_from
clean_levels levels = clean_from [] levels

pub levels_of : Option (List Bytes) → List Bytes
levels_of none = []
levels_of (some levels) = levels

pub is_declared : Option (List Bytes) → Bool
is_declared none = false
is_declared (some levels) = true

-- The guard on an entry, whose ID is trimmed already.
pub is_eligible : RemoteModel → Bool
is_eligible m =
    not (m.id == [])
    && is_supported_copilot_model_id m.id
    && elim m.tool_calls [ none ↦ true | some b ↦ b ]

pub trim_id : RemoteModel → RemoteModel
trim_id m = record m { id = trim_space m.id }

-- The entries that decode and pass the guard.
pub eligible : List (Option RemoteModel) → List RemoteModel
unfolding is_eligible trim_id
eligible [] = []
eligible (none ∷ data') = eligible data'
eligible (some m ∷ data') =
    let rest = eligible data' in if is_eligible (trim_id m) then trim_id m ∷ rest else rest

pub is_picked : RemoteModel → Bool
is_picked m =
    m.model_picker_enabled && not (equal_fold (trim_space m.policy_state) (codes "disabled"))

pub is_enabled : RemoteModel → Bool
is_enabled m = equal_fold (trim_space m.policy_state) (codes "enabled")

-- `selectedModels`: the picker's, then, if asked for, the ones that the policy enables.
pub selected_models : List RemoteModel → Bool → List RemoteModel
unfolding is_picked is_enabled
selected_models models include =
    keep_if is_picked models ++ (if include then keep_if is_enabled models else [])

pub stored_model : RemoteModel → Format → StoredModel
unfolding positive_int64 max_int64 value_or has_image_media_type levels_of is_declared
stored_model m f = record {
  id = m.id;
  name = value_or (trim_space m.name) m.id;
  version = trim_space m.version;
  family = trim_space m.family;
  format = f;
  context_window = positive_int64 m.max_context_window_tokens m.max_prompt_tokens;
  max_prompt_tokens = max_int64 m.max_prompt_tokens (pos 0);
  max_output_tokens = max_int64 m.max_output_tokens (pos 0);
  input_modalities =
      (if m.vision || has_image_media_type m.supported_media_types
        then codes "text" ∷ codes "image" ∷ []
        else codes "text" ∷ []);
  reasoning_levels = clean_levels (levels_of m.reasoning_effort);
  reasoning_levels_declared = is_declared m.reasoning_effort;
  min_thinking = max_int64 m.min_thinking_budget (pos 0);
  max_thinking = max_int64 m.max_thinking_budget (pos 0);
  adaptive_thinking = m.adaptive_thinking;
  streaming = m.streaming;
  supports_tool_search = m.tool_search;
  supports_context_editing = m.context_editing;
}

-- The loop over the selected models, with the IDs it has stored.
pub store_models : List Bytes → List RemoteModel → List StoredModel
unfolding same_format stored_model
store_models seen [] = []
store_models seen (m ∷ models) =
    let f = select_model_format m.id m.supported_endpoints in
    let skipped = any (λ s. s == m.id) seen || same_format f unknown in
    let rest = store_models (if skipped then seen else m.id ∷ seen) models in
    if skipped then rest else stored_model m f ∷ rest

pub id_less : StoredModel → StoredModel → Bool
id_less a b = bytes_lt a.id b.id

-- `parseDiscoveredModels` of an answer that decodes and has its `data`.
unfoldable pub parse_discovered_models : List (Option RemoteModel) → Bool → List StoredModel
unfolding eligible selected_models store_models id_less
parse_discovered_models data' include =
    sort id_less (store_models [] (selected_models (eligible data') include))

unfoldable pub supported_stored_models : List StoredModel → List StoredModel
supported_stored_models models = keep_if (λ m. is_supported_copilot_model_id m.id) models

unfoldable pub catalog_reasoning_levels : StoredModel → List Bytes
catalog_reasoning_levels m =
    if not m.reasoning_levels_declared then [] else clean_levels m.reasoning_levels

unfoldable pub endpoint_path : Format → Bytes
endpoint_path claude = codes "/v1/messages"
endpoint_path openai_response = codes "/responses"
endpoint_path openai = codes "/chat/completions"
endpoint_path unknown = []

unfoldable pub route_for_stored_model : StoredModel → ModelRoute
unfolding has_modality
route_for_stored_model m = record {
  format = m.format;
  path = endpoint_path m.format;
  adaptive_thinking = m.adaptive_thinking;
  min_thinking = m.min_thinking;
  max_thinking = m.max_thinking;
  family = m.family;
  max_prompt_tokens = m.max_prompt_tokens;
  max_output_tokens = m.max_output_tokens;
  streaming = m.streaming;
  vision = has_modality m.input_modalities (codes "image");
  reasoning_levels = catalog_reasoning_levels m;
  reasoning_levels_declared = m.reasoning_levels_declared;
  supports_tool_search = m.supports_tool_search;
  supports_context_editing = m.supports_context_editing;
}

pub record RouteKey : Type 0 where
  pub auth_id : Bytes
  pub model_id : Bytes

pub same_key : RouteKey → RouteKey → Bool
same_key a b = a.auth_id == b.auth_id && a.model_id == b.model_id

pub same_key_iff : (a b : RouteKey) → (same_key a b ≡ true) ↔ (a ≡ b)
unfolding same_key bytes_eq
same_key_iff a b =
    ground (arith, bytes_eq_iff a.auth_id b.auth_id, bytes_eq_iff a.model_id b.model_id)

instance abbrev pub RouteKey_eq : Eq RouteKey
RouteKey_eq = record { is_equal = same_key; is_equal_iff = same_key_iff }

-- The loop that forgets the routes of one credential.
pub delete_routes_of : Bytes → Map RouteKey ModelRoute → Map RouteKey ModelRoute
delete_routes_of auth_id routes = keep_if (λ (key, route). not (key.auth_id == auth_id)) routes

pub put_routes : Bytes → List StoredModel → Map RouteKey ModelRoute → Map RouteKey ModelRoute
put_routes auth_id [] routes = routes
put_routes auth_id (m ∷ models) routes =
    let route = route_for_stored_model m in
    put_routes auth_id models (
      if not (m.id == []) && not (route.path == [])
      then insert (record { auth_id = auth_id; model_id = m.id }) route routes
      else routes)

unfoldable pub set_model_routes :
    Bytes → List StoredModel → Map RouteKey ModelRoute → Map RouteKey ModelRoute
unfolding delete_routes_of put_routes
set_model_routes auth_id models routes =
    let auth = trim_space auth_id in put_routes auth models (delete_routes_of auth routes)

-- `modelRoute{Format: format, Path: endpointPath(format)}`.
unfoldable pub bare_route : Format → ModelRoute
bare_route f = record {
  format = f;
  path = endpoint_path f;
  adaptive_thinking = false;
  min_thinking = pos 0;
  max_thinking = pos 0;
  family = [];
  max_prompt_tokens = pos 0;
  max_output_tokens = pos 0;
  streaming = none;
  vision = false;
  reasoning_levels = [];
  reasoning_levels_declared = false;
  supports_tool_search = none;
  supports_context_editing = none;
}

-- `modelRoute{}`.
abbrev pub no_route : ModelRoute
no_route = bare_route unknown

pub find_model : Bytes → List StoredModel → Option StoredModel
find_model id [] = none
find_model id (m ∷ models) = let rest = find_model id models in if m.id == id then some m else rest

-- The part of `copilotStorage` that routing reads.
pub record CatalogStorage : Type 0 where
  pub models : List StoredModel
  pub models_fetched_at : ℤ

-- The route in the table, or the one that the ID suggests.
pub cached_route : Bytes → Bytes → Map RouteKey ModelRoute → ModelRoute
unfolding bare_route
cached_route auth_id model_id routes =
    let inferred = bare_route (infer_model_format model_id) in
    elim (lookup (record { auth_id = trim_space auth_id; model_id = trim_space model_id }) routes) [
      | none ↦ inferred
      | some route ↦ if not (route.path == []) then route else inferred
    ]

pub is_empty : List StoredModel → Bool
is_empty [] = true
is_empty (m ∷ models) = false

unfoldable pub resolve_model_route :
    Bytes → Bytes → CatalogStorage → Map RouteKey ModelRoute → ModelRoute
unfolding find_model cached_route is_empty
resolve_model_route auth_id model_id storage routes =
    let cached = cached_route auth_id model_id routes in
    if not (is_supported_copilot_model_id model_id)
    then no_route
    else elim (find_model model_id storage.models) [
      | some m ↦ route_for_stored_model m
      | none ↦
          if not (is_empty storage.models) || ltb_ℤ (pos 0) storage.models_fetched_at
          then no_route
          else cached
    ]
