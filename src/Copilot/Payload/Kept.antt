-- ===== src/Copilot/Payload/Kept.antt =====
-- internal/copilot/executor.go: which members of a body for Responses its normalization leaves alone.
use cpa_github_copilot.Common.{
  ◌≡◌, refl, ◌∙◌, inl, inr, Bool, true, false, Bool-cases, List, if◌then◌else◌, Bytes, Bytes_eq,
  ◌==◌, codes,
}
use cpa_github_copilot.Common.Json.{Json, object, Fields}
use cpa_github_copilot.Copilot.Catalog.{ModelRoute}
use cpa_github_copilot.Copilot.Terminal.{get, put}
use cpa_github_copilot.Copilot.Payload.{
  has_field, remove, kept_reasoning, normalize_reasoning, put_missing, put_defaults,
}
use cpa_github_copilot.Copilot.Payload.Members.{get-remove_other}
use cpa_github_copilot.Copilot.Terminal.Members.{get-put_other}

put_missing_other :
    (key other : Bytes) (v : Json) (payload : Fields)
    → (key == other) ≡ false
    → get other (put_missing key v payload) ≡ get other payload
put_missing_other key other v payload h = elim (Bool-cases (has_field key payload)) [
  | inl e ↦ rw (put_missing, e) refl
  | inr e ↦ rw (put_missing, e) (get-put_other key other v payload h)
]

put_if_missing_other :
    (wanted : Bool) (key other : Bytes) (v : Json) (payload : Fields)
    → (key == other) ≡ false
    → get other (if wanted then put_missing key v payload else payload) ≡ get other payload
put_if_missing_other true key other v payload h = put_missing_other key other v payload h
put_if_missing_other false key other v payload h = refl

pub put_defaults-other :
    (route : ModelRoute) (is_grok enabled : Bool) (payload : Fields) (other : Bytes)
    → (codes "truncation" == other) ≡ false
    → (codes "include" == other) ≡ false
    → (codes "context_management" == other) ≡ false
    → get other (put_defaults route is_grok enabled payload) ≡ get other payload
unfolding put_defaults
put_defaults-other route is_grok enabled payload other h k l =
    put_if_missing_other _ (codes "context_management") other _ _ l
    ∙ put_missing_other (codes "include") other _ _ k
    ∙ put_missing_other (codes "truncation") other _ payload h

put_or_remove_other :
    (drops : Bool) (key other : Bytes) (v : Json) (payload : Fields)
    → (key == other) ≡ false
    → get other (if drops then remove key payload else put key v payload) ≡ get other payload
put_or_remove_other true key other v payload h = get-remove_other key other payload h
put_or_remove_other false key other v payload h = get-put_other key other v payload h

-- What holds of both outcomes of a test for an object.
on_object :
    (P : Fields → Type 0) (changed : Fields → Fields) (payload : Fields) (j : Json)
    → ((o : Fields) → P (changed o))
    → P payload
    → P (elim j as (λ _. Fields) [ object o ↦ changed o | _ ↦ payload ])
on_object P changed payload (object o) h k = h o
on_object P changed payload _ h k = k

pub normalize_reasoning-other :
    (levels : List Bytes) (is_grok : Bool) (payload : Fields) (other : Bytes)
    → (codes "reasoning" == other) ≡ false
    → get other (normalize_reasoning levels is_grok payload) ≡ get other payload
unfolding normalize_reasoning
normalize_reasoning-other levels is_grok payload other h =
    on_object (λ f. get other f ≡ get other payload) _ payload (get (codes "reasoning") payload)
      (λ o.
        put_or_remove_other _ (codes "reasoning") other (object (kept_reasoning levels is_grok o))
          payload h)
      refl
