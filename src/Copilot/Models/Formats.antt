-- ===== src/Copilot/Models/Formats.antt =====
-- internal/copilot/models.go: the preference among the endpoints that a model declares.
use cpa_github_copilot.Common.{
  ◌≡◌, refl, ◌∙◌, Bool, true, false, not, ◌||◌, List, [], ◌∷◌, arith, any, if◌then◌else◌, Bytes,
  ◌==◌, trim_space, Bytes_eq,
}
use cpa_github_copilot.Copilot.Models.{
  Format, unknown, openai, openai_response, claude, same_format, endpoint_format, Declared,
  declare_endpoint, declare_all, select_model_format, infer_model_format,
  is_supported_copilot_model_id,
}

-- Whether some endpoint speaks the format.
abbrev pub offers : Format → List Bytes → Bool
offers f endpoints = any (λ e. same_format (endpoint_format e) f) endpoints

abbrev pub declares : List Bytes → Bool
declares endpoints = any (λ e. not (trim_space e == [])) endpoints

or_assoc : (a b c : Bool) → ((a || b) || c) ≡ (a || (b || c))
or_assoc true b c = refl
or_assoc false b c = refl

declare_all-claude :
    (d : Declared) (es : List Bytes)
    → (declare_all d es).has_claude ≡ (d.has_claude || offers claude es)
unfolding declare_all
declare_all-claude d [] = ground arith
declare_all-claude d (e ∷ es) =
    declare_all-claude (declare_endpoint d e) es
    ∙ or_assoc d.has_claude (same_format (endpoint_format e) claude) (offers claude es)

declare_all-responses :
    (d : Declared) (es : List Bytes)
    → (declare_all d es).has_responses ≡ (d.has_responses || offers openai_response es)
unfolding declare_all
declare_all-responses d [] = ground arith
declare_all-responses d (e ∷ es) =
    declare_all-responses (declare_endpoint d e) es
    ∙ or_assoc d.has_responses (same_format (endpoint_format e) openai_response)
        (offers openai_response es)

declare_all-openai :
    (d : Declared) (es : List Bytes)
    → (declare_all d es).has_openai ≡ (d.has_openai || offers openai es)
unfolding declare_all
declare_all-openai d [] = ground arith
declare_all-openai d (e ∷ es) =
    declare_all-openai (declare_endpoint d e) es
    ∙ or_assoc d.has_openai (same_format (endpoint_format e) openai) (offers openai es)

declare_all-any :
    (d : Declared) (es : List Bytes)
    → (declare_all d es).had_endpoint ≡ (d.had_endpoint || declares es)
unfolding declare_all
declare_all-any d [] = ground arith
declare_all-any d (e ∷ es) =
    declare_all-any (declare_endpoint d e) es
    ∙ or_assoc d.had_endpoint (not (trim_space e == [])) (declares es)

-- The format by what the endpoints offer, in whatever order they are declared.
abbrev pub preferred : Bytes → List Bytes → Format
preferred id es =
    if offers openai_response es
    then openai_response
    else if offers claude es
    then claude
    else if offers openai es
    then openai
    else if declares es
    then unknown
    else infer_model_format id

-- Of a supported model, the format is Responses if some declared endpoint speaks it, else Claude
-- Messages, else Chat Completions, in whatever order the endpoints are declared; if none of the
-- declared ones is known the model has no format, and only without any endpoint is the format
-- inferred from the ID.
select_model_format-preferred :
    (id : Bytes) (endpoints : List Bytes)
    → is_supported_copilot_model_id id ≡ true
    → select_model_format id endpoints ≡ preferred id endpoints
unfolding select_model_format
select_model_format-preferred id es h =
    let d0 : Declared = record {
      has_claude = false;
      has_responses = false;
      has_openai = false;
      had_endpoint = false;
    } in
    ground (
      arith,
      h,
      declare_all-claude d0 es,
      declare_all-responses d0 es,
      declare_all-openai d0 es,
      declare_all-any d0 es,
    )
