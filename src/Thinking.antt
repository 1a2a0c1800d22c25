-- ===== src/Thinking.antt =====
-- internal/thinking: levels and budgets of reasoning, and the suffixes of model names.
pub mod Levels
pub mod Suffix
