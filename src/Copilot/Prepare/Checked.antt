-- ===== src/Copilot/Prepare/Checked.antt =====
-- internal/copilot/executor.go: what holds of a request that `prepareInference` lets through.
use cpa_github_copilot.Common.{
  ℕ, ◌≡◌, refl, sym, subst, inl, inr, Bool, true, not, Bool-cases, [], arith, Bytes, Bytes_eq,
  bytes_eq, ◌==◌, Map,
}
use cpa_github_copilot.Copilot.Models.{openai_response, is_supported_copilot_model_id}
use cpa_github_copilot.Copilot.Catalog.{
  ModelRoute, RouteKey, RouteKey_eq, endpoint_path, resolve_model_route,
}
use cpa_github_copilot.Copilot.Catalog.Routes.{Coherent, AllCoherent, resolve_model_route-Coherent}
use cpa_github_copilot.Copilot.Prepare.{
  catalog_of, ExecutorRequest, PreparedInference, ready, Services, requested_model, input_format_of,
  responses_stateful_markers_present, prepare_inference,
}
use cpa_github_copilot.Copilot.Prepare.Steps.{
  IsAddressed, IsRouted, IsStateful, send_lem, keeps_state-IsStateful, prepare_inference_lem,
  check_route_lem,
}

not_empty : {A : Type 0} (s : Bytes) → s ≡ [] → not (s == []) ≡ true → A
unfolding bytes_eq
not_empty s h k = absurd (ground (arith, h, k))

module _ (services : Services) where
  -- A request that is let through has a live session of the configured host, goes to that host's API
  -- under the path of its format, is for a supported model whose route serves it, streams only if
  -- that route does, and every conversion that it needs is there.
  pub prepare_inference-IsRouted :
      (now : ℕ) (own_host : Bytes) (routes : Map RouteKey ModelRoute) (req : ExecutorRequest)
      (stream : Bool) (p : PreparedInference)
      → AllCoherent routes
      → prepare_inference services now own_host routes req stream ≡ ready p
      → IsAddressed services now own_host p
        × IsRouted services
            (resolve_model_route req.auth_id p.model (catalog_of p.storage) routes)
            stream
            p
        × (p.upstream_path ≡ endpoint_path p.upstream_format)
        × (is_supported_copilot_model_id p.model ≡ true)
  unfolding Coherent
  prepare_inference-IsRouted now own_host routes req stream p coherent h =
      let (storage, live, own, h1) =
        prepare_inference_lem services now own_host routes req stream p h in
      let model = requested_model services req in
      let route = resolve_model_route req.auth_id model (catalog_of storage) routes in
      let (routed, _, h2) = check_route_lem services req stream storage own_host model route p h1 in
      let (payload, e, based, _) = send_lem services req stream storage own_host model route p h2 in
      let (same_path, unsupported) =
        resolve_model_route-Coherent req.auth_id model (catalog_of storage) routes coherent in
      let supported : is_supported_copilot_model_id model ≡ true =
        elim (Bool-cases (is_supported_copilot_model_id model)) [
          | inl known ↦ known
          | inr other ↦ not_empty route.path (unsupported other) routed.present
        ] in
      subst
        (λ q.
          IsAddressed services now own_host q
          × IsRouted services
              (resolve_model_route req.auth_id q.model (catalog_of q.storage) routes) stream q
          × (q.upstream_path ≡ endpoint_path q.upstream_format)
          × (is_supported_copilot_model_id q.model ≡ true))
        e
        (
          record { live = live; own = own; based = based; url = refl },
          subst (λ q. IsRouted services route stream q) (sym e) routed,
          same_path,
          supported,
        )

  -- A request of the Responses protocol whose body refers to state (a previous response, context
  -- management, a compaction or encrypted reasoning) is let through only if its model is served in
  -- that protocol and its answer is wanted in it, so that nothing converts either.
  pub prepare_inference-IsStateful :
      (now : ℕ) (own_host : Bytes) (routes : Map RouteKey ModelRoute) (req : ExecutorRequest)
      (stream : Bool) (p : PreparedInference)
      → prepare_inference services now own_host routes req stream ≡ ready p
      → input_format_of services req ≡ openai_response
      → responses_stateful_markers_present (services.decode_state req.payload) ≡ true
      → IsStateful services req p
  prepare_inference-IsStateful now own_host routes req stream p h input state =
      let (storage, _, _, h1) = prepare_inference_lem services now own_host routes req stream p h in
      let model = requested_model services req in
      let route = resolve_model_route req.auth_id model (catalog_of storage) routes in
      let (_, keeps, h2) = check_route_lem services req stream storage own_host model route p h1 in
      let (payload, e, _, _) = send_lem services req stream storage own_host model route p h2 in
      subst (IsStateful services req) e
        (keeps_state-IsStateful services req storage own_host model payload route keeps input state)
