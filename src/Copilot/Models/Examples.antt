-- ===== src/Copilot/Models/Examples.antt =====
-- internal/copilot/models.go: the gate and the formats on concrete IDs.
use cpa_github_copilot.Common.{
  ◌≡◌, refl, true, false, List, [], ◌∷◌, Bytes, Bytes_eq, bytes_eq, codes, trim_space, to_lower,
  has_prefix, cut_prefix, split, join, has_byte,
}
use cpa_github_copilot.Copilot.Models.{
  is_supported_copilot_model_id, is_copilot_claude, accepts_claude_name, is_copilot_gpt,
}

-- The test `TestIsSupportedCopilotModelID` on some of its IDs.
supported_ids :
    (is_supported_copilot_model_id (codes "claude-sonnet-5-1") ≡ true)
    × (is_supported_copilot_model_id (codes "claude-opus-4-8") ≡ false)
    × (is_supported_copilot_model_id (codes "Claude-Opus-6") ≡ true)
    × (is_supported_copilot_model_id (codes "gpt-5.4") ≡ false)
    × (is_supported_copilot_model_id (codes " GPT-6.1-mini ") ≡ true)
    × (is_supported_copilot_model_id (codes "grok-4") ≡ true)
unfolding is_supported_copilot_model_id trim_space to_lower has_prefix cut_prefix is_copilot_claude
    is_copilot_gpt accepts_claude_name split bytes_eq has_byte join
supported_ids = (refl, refl, refl, refl, refl, refl)

chat_and_messages : List Bytes
chat_and_messages = codes "/chat/completions" ∷ codes " /V1/Messages" ∷ []
