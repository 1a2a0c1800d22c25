-- ===== src/Copilot/Payload/Effort.antt =====
-- internal/copilot/executor.go: the reasoning effort of a body for Responses that has been
-- normalized.
use cpa_github_copilot.Common.{◌≡◌, ◌≢◌, ◌⊎◌, true, List, [], Bytes, Bytes_eq, codes, to_lower}
use cpa_github_copilot.Common.Json.{Json, null, string, Fields}
use cpa_github_copilot.Copilot.Terminal.{get, fields_of}
use cpa_github_copilot.Copilot.Prepare.{declares_reasoning_level}

-- The effort of a body for Responses.
abbrev pub effort_of : Fields → Json
effort_of payload = get (codes "effort") (fields_of (get (codes "reasoning") payload))

-- A text, where the effort is one, is empty, or in lower case a declared level and not a word that
-- turns the reasoning off.
abbrev pub IsUsable : List Bytes → Json → Type 0
IsUsable levels effort =
    (name : Bytes)
    → effort ≡ string name
    → (name ≡ [])
      ⊎ ((declares_reasoning_level levels (to_lower name) ≡ true)
          × (to_lower name ≢ codes "none")
          × (to_lower name ≢ codes "off"))

-- The effort that goes out is none, or the one that came in, which is usable.
abbrev pub Sent : List Bytes → Json → Json → Type 0
Sent levels given effort = (effort ≡ null) ⊎ ((effort ≡ given) × IsUsable levels effort)
