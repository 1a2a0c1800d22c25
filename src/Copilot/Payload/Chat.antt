-- ===== src/Copilot/Payload/Chat.antt =====
-- internal/copilot/executor.go: the reasoning effort of a body for Chat Completions that has been
-- normalized.
use cpa_github_copilot.Common.{
  ◌≡◌, refl, sym, subst, ◌⊎◌, inl, inr, Bool, true, false, not, ◌&&◌, Bool-cases, List, arith,
  if◌then◌else◌, Bytes, Bytes_eq, bytes_eq, codes, to_lower, trim_space,
}
use cpa_github_copilot.Common.Json.{
  Json, null, boolean, number, fraction, string, array, object, Fields,
}
use cpa_github_copilot.Copilot.Catalog.{ModelRoute}
use cpa_github_copilot.Copilot.Terminal.{get, put, string_value}
use cpa_github_copilot.Copilot.Prepare.{declares_reasoning_level}
use cpa_github_copilot.Copilot.Payload.{
  has_field, remove, system_roles, drop_undeclared_effort, normalize_openai_compatibility,
}
use cpa_github_copilot.Copilot.Payload.Members.{get-remove, get-missing}
use cpa_github_copilot.Copilot.Terminal.Members.{get-put_other}

-- An effort of a body for Chat Completions: none, or a text that names one of the levels.
abbrev pub IsDeclared : List Bytes → Json → Type 0
IsDeclared levels effort =
    (effort ≡ null)
    ⊎ ((name : Bytes) × (effort ≡ string name) × (declares_reasoning_level levels name ≡ true))

string_value-IsDeclared :
    (levels : List Bytes) (effort : Json)
    → declares_reasoning_level levels (string_value effort) ≡ true
    → IsDeclared levels effort
unfolding declares_reasoning_level string_value bytes_eq to_lower trim_space
string_value-IsDeclared levels (string name) h = inr (name, refl, h)
string_value-IsDeclared levels null h = inl refl
string_value-IsDeclared levels (boolean b) h = absurd (ground (arith, h))
string_value-IsDeclared levels (number n) h = absurd (ground (arith, h))
string_value-IsDeclared levels (fraction sign whole) h = absurd (ground (arith, h))
string_value-IsDeclared levels (array items) h = absurd (ground (arith, h))
string_value-IsDeclared levels (object fields) h = absurd (ground (arith, h))

kept-IsDeclared :
    (levels : List Bytes) (key : Bytes) (payload : Fields) (drops : Bool)
    → drops ≡ (
        has_field key payload
        && not (declares_reasoning_level levels (string_value (get key payload))))
    → IsDeclared levels (get key (if drops then remove key payload else payload))
kept-IsDeclared levels key payload true h = rw (get-remove key payload) (inl refl)
kept-IsDeclared levels key payload false h =
    elim (Bool-cases (declares_reasoning_level levels (string_value (get key payload)))) [
      | inl d ↦ string_value-IsDeclared levels (get key payload) d
      | inr d ↦ inl (get-missing key payload (ground (arith, h, d)))
    ]

drop_undeclared_effort-IsDeclared :
    (payload : Fields) (levels : List Bytes)
    → IsDeclared levels (get (codes "reasoning_effort") (drop_undeclared_effort payload levels))
unfolding drop_undeclared_effort
drop_undeclared_effort-IsDeclared payload levels =
    kept-IsDeclared levels (codes "reasoning_effort") payload _ refl

put_messages-effort :
    (cleaned : Fields) (messages : Json)
    → get (codes "reasoning_effort") (elim messages as (λ _. Fields) [
      | array items ↦ put (codes "messages") (array (system_roles items)) cleaned
      | _ ↦ cleaned
    ])
      ≡ get (codes "reasoning_effort") cleaned
unfolding bytes_eq
put_messages-effort cleaned (array items) =
    get-put_other (codes "messages") (codes "reasoning_effort") (array (system_roles items)) cleaned
      refl
put_messages-effort cleaned _ = refl

-- A body for Chat Completions goes out with no effort, or with a text that its route declares as a
-- level.
pub normalize_openai_compatibility-IsDeclared :
    (payload : Fields) (route : ModelRoute)
    → let out = normalize_openai_compatibility payload route in
      IsDeclared route.reasoning_levels (get (codes "reasoning_effort") out)
unfolding normalize_openai_compatibility
normalize_openai_compatibility-IsDeclared payload route =
    let cleaned = drop_undeclared_effort (remove (codes "store") payload) route.reasoning_levels in
    subst (IsDeclared route.reasoning_levels)
      (sym (put_messages-effort cleaned (get (codes "messages") cleaned)))
      (drop_undeclared_effort-IsDeclared (remove (codes "store") payload) route.reasoning_levels)
