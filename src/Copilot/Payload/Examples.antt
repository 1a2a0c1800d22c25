-- ===== src/Copilot/Payload/Examples.antt =====
-- Bodies with an effort that the route does not declare.
use cpa_github_copilot.Common.{
  ℕ, ◌≡◌, refl, Bool, true, false, Option, none, some, List, [], ◌∷◌, Bytes, codes, pos,
}
use cpa_github_copilot.Common.Json.{boolean, number, string, object, Fields, end, field}
use cpa_github_copilot.Copilot.Models.{openai}
use cpa_github_copilot.Copilot.Catalog.{ModelRoute, bare_route}
use cpa_github_copilot.Copilot.Terminal.{get, put, string_value, fields_of}
use cpa_github_copilot.Copilot.Payload.{
  normalize_openai_compatibility, normalize_openai_responses_compatibility,
  normalize_anthropic_reasoning_effort, is_grok_responses_route,
}
use cpa_github_copilot.Copilot.Payload.Effort.{effort_of}
use cpa_github_copilot.Copilot.Payload.Chat.{IsDeclared, normalize_openai_compatibility-IsDeclared}

chat_route : ModelRoute
chat_route = record (bare_route openai) { reasoning_levels = codes "high" ∷ [] }

chat_body : Fields
chat_body =
    field (codes "store") (boolean true)
      (field (codes "reasoning_effort") (string (codes "low")) end)

chat_normalized : normalize_openai_compatibility chat_body chat_route ≡ end
unfolding normalize_openai_compatibility chat_body chat_route get
    cpa_github_copilot.Copilot.Payload.has_field cpa_github_copilot.Copilot.Payload.remove
    cpa_github_copilot.Common.bytes_eq cpa_github_copilot.Copilot.Prepare.declares_reasoning_level
    cpa_github_copilot.Common.to_lower cpa_github_copilot.Common.trim_space string_value
    cpa_github_copilot.Common.equal_fold
chat_normalized = refl

responses_body : Fields
responses_body =
    field (codes "reasoning") (object (field (codes "effort") (string (codes "HIGH")) end)) end

-- An effort that is no text goes out as it came in.
unchecked_body : Fields
unchecked_body =
    field (codes "reasoning") (object (field (codes "effort") (number (pos 5)) end)) end

unchecked_effort :
    effort_of (normalize_openai_responses_compatibility (λ f. f) unchecked_body chat_route false)
    ≡ number (pos 5)
unfolding chat_route unchecked_body is_grok_responses_route normalize_openai_responses_compatibility
    cpa_github_copilot.Common.bytes_eq cpa_github_copilot.Common.to_lower
    cpa_github_copilot.Common.trim_space bare_route cpa_github_copilot.Common.has_prefix
    string_value get put fields_of cpa_github_copilot.Copilot.Payload.has_field
unchecked_effort = refl

normalize_openai_compatibility-IsDeclared_example :
    IsDeclared
      (codes "high" ∷ [])
      (get (codes "reasoning_effort") (normalize_openai_compatibility chat_body chat_route))
unfolding chat_route bare_route
normalize_openai_compatibility-IsDeclared_example =
    normalize_openai_compatibility-IsDeclared chat_body chat_route
