-- ===== src/Copilot/Catalog/Records.antt =====
-- internal/copilot/models.go: the records of the catalog.
use cpa_github_copilot.Common.{Bool, Option, List, Bytes, Bytes_eq, ℤ}
use cpa_github_copilot.Copilot.Models.{Format}

-- `remoteModel`, its nested structs written flat.
pub record RemoteModel : Type 0 where
  pub id : Bytes
  pub name : Bytes
  pub version : Bytes
  pub model_picker_enabled : Bool
  pub supported_endpoints : List Bytes
  pub policy_state : Bytes
  pub family : Bytes
  pub max_context_window_tokens : ℤ
  pub max_output_tokens : ℤ
  pub max_prompt_tokens : ℤ
  pub supported_media_types : List Bytes
  pub adaptive_thinking : Bool
  pub max_thinking_budget : ℤ
  pub min_thinking_budget : ℤ
  pub reasoning_effort : Option (List Bytes)
  pub streaming : Option Bool
  pub tool_calls : Option Bool
  pub vision : Bool
  pub tool_search : Option Bool
  pub context_editing : Option Bool

pub record StoredModel : Type 0 where
  pub id : Bytes
  pub name : Bytes
  pub version : Bytes
  pub family : Bytes
  pub format : Format
  pub context_window : ℤ
  pub max_prompt_tokens : ℤ
  pub max_output_tokens : ℤ
  pub input_modalities : List Bytes
  pub reasoning_levels : List Bytes
  pub reasoning_levels_declared : Bool
  pub min_thinking : ℤ
  pub max_thinking : ℤ
  pub adaptive_thinking : Bool
  pub streaming : Option Bool
  pub supports_tool_search : Option Bool
  pub supports_context_editing : Option Bool

pub record ModelRoute : Type 0 where
  pub format : Format
  pub path : Bytes
  pub adaptive_thinking : Bool
  pub min_thinking : ℤ
  pub max_thinking : ℤ
  pub family : Bytes
  pub max_prompt_tokens : ℤ
  pub max_output_tokens : ℤ
  pub streaming : Option Bool
  pub vision : Bool
  pub reasoning_levels : List Bytes
  pub reasoning_levels_declared : Bool
  pub supports_tool_search : Option Bool
  pub supports_context_editing : Option Bool
