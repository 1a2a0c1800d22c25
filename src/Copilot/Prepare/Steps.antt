-- ===== src/Copilot/Prepare/Steps.antt =====
-- internal/copilot/executor.go: the checks of `prepareInference`, taken apart.
use cpa_github_copilot.Common.{
  ℕ, ◌≡◌, refl, ap, subst, ◌∙◌, ◌⊎◌, inl, inr, Bool, true, false, not, ◌&&◌, ◌||◌, Option, none,
  some, [], ◌++◌, arith, Bytes, Bytes_eq, ◌==◌, eq→path, Map,
}
use cpa_github_copilot.Copilot.Models.{
  Format, unknown, openai, openai_response, claude, same_format,
}
use cpa_github_copilot.Copilot.Catalog.{ModelRoute, RouteKey, RouteKey_eq, resolve_model_route}
use cpa_github_copilot.Copilot.Terminal.{Protocol, chat, responses, codex, messages, other_protocol}
use cpa_github_copilot.Copilot.Prepare.{
  CopilotStorage, catalog_of, ExecutorRequest, ServiceError, PreparedInference, Preparation, ready,
  require, require_some, is_live, Services, requested_model, input_format_of, output_format_of,
  protocol_of, same_protocol, translator_target_format, responses_stateful_markers_present,
  keeps_state, send, check_route, prepare_inference,
}

require-ready :
    (c : Bool) (e : ServiceError) (rest : Preparation) (p : PreparedInference)
    → require c e rest ≡ ready p
    → (c ≡ true) × (rest ≡ ready p)
unfolding require
require-ready true e rest p h = (refl, h)
require-ready false e rest p h = absurd (ground (arith, h))

require_some-ready :
    {A : Type 0} (o : Option A) (e : ServiceError) (rest : A → Preparation) (p : PreparedInference)
    → require_some o e rest ≡ ready p
    → (a : A) × (o ≡ some a) × (rest a ≡ ready p)
unfolding require_some
require_some-ready none e rest p h = absurd (ground (arith, h))
require_some-ready (some a) e rest p h = (a, refl, h)

module _ (services : Services) where
  -- The session is live and belongs to the configured host, and the URL is the API's with the path.
  pub record IsAddressed (now : ℕ) (own_host : Bytes) (p : PreparedInference) : Type 0 where
    pub live : is_live now p.storage ≡ true
    pub own : services.normalize_host p.storage.github_host ≡ some own_host
    pub based : not (services.api_base p.storage.copilot_session_token own_host == []) ≡ true
    pub url :
        p.upstream_url
        ≡ services.api_base p.storage.copilot_session_token own_host ++ p.upstream_path

  -- The model's route serves the request: it is known, it streams if asked to, and each conversion
  -- that it needs exists.
  pub record IsRouted (route : ModelRoute) (stream : Bool) (p : PreparedInference) : Type 0 where
    pub format : p.upstream_format ≡ route.format
    pub path : p.upstream_path ≡ route.path
    pub known : same_format route.format unknown ≡ false
    pub present : not (route.path == []) ≡ true
    pub target : p.translator_format ≡ translator_target_format p.upstream_format p.input_format
    pub streams : (stream ≡ false) ⊎ (route.streaming ≡ some true)
    pub converts :
        (protocol_of p.input_format ≡ p.translator_format)
        ⊎ (services.has_request_transformer (protocol_of p.input_format) p.translator_format ≡ true)
    pub returns :
        (stream ≡ false)
        ⊎ ((p.translator_format ≡ protocol_of p.output_format)
            ⊎ (services.has_stream_transformer (protocol_of p.output_format) p.translator_format
                ≡ true))

  -- A body with Responses state is neither converted on its way nor is its answer.
  pub IsStateful : ExecutorRequest → PreparedInference → Type 0
  IsStateful req p =
      (p.output_format ≡ openai_response)
      × (p.upstream_format ≡ openai_response)
      × (p.translator_format ≡ responses)

  same_format→path : (a b : Format) → same_format a b ≡ true → a ≡ b
  unfolding same_format
  same_format→path unknown b h = ground (arith, h)
  same_format→path openai b h = ground (arith, h)
  same_format→path openai_response b h = ground (arith, h)
  same_format→path claude b h = ground (arith, h)

  same_protocol→path : (a b : Protocol) → same_protocol a b ≡ true → a ≡ b
  same_protocol→path chat b h = ground (arith, h)
  same_protocol→path responses b h = ground (arith, h)
  same_protocol→path codex b h = ground (arith, h)
  same_protocol→path messages b h = ground (arith, h)
  same_protocol→path other_protocol b h = ground (arith, h)

  -- What `send` makes of a payload.
  abbrev pub prepared :
      ExecutorRequest → CopilotStorage → Bytes → Bytes → ModelRoute → Bytes → PreparedInference
  prepared req storage host model route payload = record {
    storage = storage;
    model = model;
    input_format = input_format_of services req;
    output_format = output_format_of services req;
    upstream_format = route.format;
    translator_format = translator_target_format route.format (input_format_of services req);
    upstream_url = services.api_base storage.copilot_session_token host ++ route.path;
    upstream_path = route.path;
    upstream_payload = payload;
  }

  pub send_lem :
      (req : ExecutorRequest) (stream : Bool) (storage : CopilotStorage) (host model : Bytes)
      (route : ModelRoute) (p : PreparedInference)
      → send services req stream storage host model route ≡ ready p
      → (payload : Bytes) × (prepared req storage host model route payload ≡ p)
        × (not (services.api_base storage.copilot_session_token host == []) ≡ true)
        × ((not stream
              || same_protocol
                  (translator_target_format route.format (input_format_of services req))
                  (protocol_of (output_format_of services req))
              || services.has_stream_transformer
                  (protocol_of (output_format_of services req))
                  (translator_target_format route.format (input_format_of services req)))
            ≡ true)
  unfolding send
  send_lem req stream storage host model route p h =
      let (payload, _, h1) = require_some-ready _ _ _ p h in
      let (based, h2) = require-ready _ _ _ p h1 in
      let (returns, h3) = require-ready _ _ _ p h2 in (payload, ground (arith, h3), based, returns)

  not_or : (a b : Bool) → (not a || b) ≡ true → (a ≡ false) ⊎ (b ≡ true)
  not_or true b h = inr h
  not_or false b h = inl refl

  or_cases : (a b : Bool) → (a || b) ≡ true → (a ≡ true) ⊎ (b ≡ true)
  or_cases true b h = inl refl
  or_cases false b h = inr h

  is_on :
      (o : Option Bool)
      → elim o as (λ _. Bool) [ none ↦ false | some on ↦ on ] ≡ true
      → o ≡ some true
  is_on none h = absurd (ground (arith, h))
  is_on (some on) h = ground (arith, h)

  send-IsRouted :
      (req : ExecutorRequest) (stream : Bool) (storage : CopilotStorage) (host model : Bytes)
      (route : ModelRoute) (p : PreparedInference)
      → not (route.path == []) && not (same_format route.format unknown) ≡ true
      → (not stream || elim route.streaming as (λ _. Bool) [ none ↦ false | some on ↦ on ]) ≡ true
      → (same_protocol
            (protocol_of (input_format_of services req))
            (translator_target_format route.format (input_format_of services req))
          || services.has_request_transformer
              (protocol_of (input_format_of services req))
              (translator_target_format route.format (input_format_of services req)))
        ≡ true
      → send services req stream storage host model route ≡ ready p
      → IsRouted route stream p
  send-IsRouted req stream storage host model route p there streams converts h =
      let (payload, e, based, returns) = send_lem req stream storage host model route p h in
      let input = input_format_of services req in
      let target = translator_target_format route.format input in
      let output = output_format_of services req in
      subst (λ q. IsRouted route stream q) e
        (record {
          format = refl;
          path = refl;
          known = ground (arith, there);
          present = ground (arith, there);
          target = refl;
          streams =
              elim (not_or stream
                (elim route.streaming as (λ _. Bool) [ none ↦ false | some on ↦ on ]) streams) [
                  | inl off ↦ inl off
                  | inr on ↦ inr (is_on route.streaming on)
                ];
          converts = elim (or_cases (same_protocol (protocol_of input) target) _ converts) [
            | inl same ↦ inl (same_protocol→path (protocol_of input) target same)
            | inr found ↦ inr found
          ];
          returns =
              elim (or_cases (not stream || same_protocol target (protocol_of output)) _ returns) [
                | inr found ↦ inr (inr found)
                | inl direct ↦
                    elim (not_or stream (same_protocol target (protocol_of output)) direct) [
                      | inl off ↦ inl off
                      | inr same ↦ inr (inl (same_protocol→path target (protocol_of output) same))
                    ]
              ];
        })

  pub keeps_state-IsStateful :
      (req : ExecutorRequest) (storage : CopilotStorage) (host model payload : Bytes)
      (route : ModelRoute)
      → keeps_state services req route ≡ true
      → input_format_of services req ≡ openai_response
      → responses_stateful_markers_present (services.decode_state req.payload) ≡ true
      → IsStateful req (prepared req storage host model route payload)
  unfolding keeps_state IsStateful same_format
  keeps_state-IsStateful req storage host model payload route k input state =
      let output = output_format_of services req in
      let target = translator_target_format route.format (input_format_of services req) in
      let native : (same_format output openai_response
            && same_format route.format openai_response
            && same_protocol target responses)
          ≡ true =
        ground (arith, k, input, state) in
      (
        same_format→path output openai_response (ground (arith, native)),
        same_format→path route.format openai_response (ground (arith, native)),
        same_protocol→path target responses (ground (arith, native)),
      )

  -- The checks up to the route, taken apart.
  pub prepare_inference_lem :
      (now : ℕ) (own_host : Bytes) (routes : Map RouteKey ModelRoute) (req : ExecutorRequest)
      (stream : Bool) (p : PreparedInference)
      → prepare_inference services now own_host routes req stream ≡ ready p
      → (storage : CopilotStorage) × (is_live now storage ≡ true)
        × (services.normalize_host storage.github_host ≡ some own_host)
        × (check_route services req stream storage own_host (requested_model services req) (
              resolve_model_route req.auth_id
                (requested_model services req)
                (catalog_of storage)
                routes)
            ≡ ready p)
  unfolding prepare_inference
  prepare_inference_lem now own_host routes req stream p h =
      let (_, h1) = require-ready _ _ _ p h in
      let (storage, _, h2) = require_some-ready _ _ _ p h1 in
      let (_, h3) = require-ready _ _ _ p h2 in
      let (live, h4) = require-ready _ _ _ p h3 in
      let (host, named, h5) = require_some-ready _ _ _ p h4 in
      let (own, h6) = require-ready _ _ _ p h5 in
      let (_, h7) = require-ready _ _ _ p h6 in
      let (_, h8) = require-ready _ _ _ p h7 in
      let same : host ≡ own_host = eq→path host own_host own in
      (
        storage,
        live,
        named ∙ ap some same,
        subst
            (λ t.
              check_route services req stream storage t (requested_model services req) (
                resolve_model_route req.auth_id (requested_model services req) (catalog_of storage)
                  routes)
              ≡ ready p)
            same h8,
      )

  -- The checks against the route, taken apart.
  pub check_route_lem :
      (req : ExecutorRequest) (stream : Bool) (storage : CopilotStorage) (host model : Bytes)
      (route : ModelRoute) (p : PreparedInference)
      → check_route services req stream storage host model route ≡ ready p
      → IsRouted route stream p
        × (keeps_state services req route ≡ true)
        × (send services req stream storage host model route ≡ ready p)
  unfolding check_route
  check_route_lem req stream storage host model route p h =
      let (there, h1) = require-ready _ _ _ p h in
      let (_, h2) = require-ready _ _ _ p h1 in
      let (streams, h3) = require-ready _ _ _ p h2 in
      let (keeps, h4) = require-ready _ _ _ p h3 in
      let (converts, h5) = require-ready _ _ _ p h4 in
      (send-IsRouted req stream storage host model route p there streams converts h5, keeps, h5)
