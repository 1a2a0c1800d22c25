-- ===== src/Copilot/Catalog/Routes.antt =====
-- internal/copilot/models.go: the route table, and the route that a request resolves to.
use cpa_github_copilot.Common.{
  ◌≡◌, refl, inl, inr, false, not, ◌&&◌, ◌||◌, Option, none, some, List, [], ◌∷◌, arith,
  if◌then◌else◌, All, All-keep_if, subst, Bool-cases, Bytes, Bytes_eq, bytes_eq_iff, ◌==◌,
  trim_space, Map, ltb_ℤ, Option-cases, lookup, insert, lookup-insert, pos,
}
use cpa_github_copilot.Copilot.Models.{is_supported_copilot_model_id}
use cpa_github_copilot.Copilot.Catalog.{
  StoredModel, ModelRoute, RouteKey, RouteKey_eq, same_key, delete_routes_of, put_routes,
  set_model_routes, bare_route, find_model, CatalogStorage, cached_route, resolve_model_route,
  is_empty, route_for_stored_model, endpoint_path,
}

-- The path of a route is that of its format.
unfoldable pub Coherent : ModelRoute → Type 0
Coherent route = route.path ≡ endpoint_path route.format

abbrev pub AllCoherent : Map RouteKey ModelRoute → Type 0
AllCoherent routes = All (λ entry. Coherent entry.1) routes

insert-AllCoherent :
    (k : RouteKey) (route : ModelRoute) (routes : Map RouteKey ModelRoute)
    → Coherent route
    → AllCoherent routes
    → AllCoherent (insert k route routes)
unfolding insert
insert-AllCoherent k route [] h t = (h, tt)
insert-AllCoherent k route ((j, w) ∷ routes) h t =
    ground (arith, h, t, insert-AllCoherent k route routes h t.1)

route-Coherent : (m : StoredModel) → Coherent (route_for_stored_model m)
unfolding route_for_stored_model Coherent
route-Coherent m = refl

put_routes-AllCoherent :
    (auth : Bytes) (models : List StoredModel) (routes : Map RouteKey ModelRoute)
    → AllCoherent routes
    → AllCoherent (put_routes auth models routes)
unfolding put_routes
put_routes-AllCoherent auth [] routes t = t
put_routes-AllCoherent auth (m ∷ models) routes t =
    let route = route_for_stored_model m in
    let key : RouteKey = record { auth_id = auth; model_id = m.id } in
    let put = not (m.id == []) && not (route.path == []) in
    put_routes-AllCoherent auth models (if put then insert key route routes else routes)
      (elim (Bool-cases put) [
        | inl e ↦ rw e (insert-AllCoherent key route routes (route-Coherent m) t)
        | inr e ↦ rw e t
      ])

-- Setting the routes of a credential keeps the table coherent.
set_model_routes-AllCoherent :
    (auth : Bytes) (models : List StoredModel) (routes : Map RouteKey ModelRoute)
    → AllCoherent routes
    → AllCoherent (set_model_routes auth models routes)
unfolding set_model_routes delete_routes_of
set_model_routes-AllCoherent auth models routes t =
    put_routes-AllCoherent (trim_space auth) models (delete_routes_of (trim_space auth) routes) (
      All-keep_if (λ entry. Coherent entry.1) (λ (key, route). not (key.auth_id == trim_space auth))
        routes t)

lookup-Coherent :
    (k : RouteKey) (routes : Map RouteKey ModelRoute) (route : ModelRoute)
    → AllCoherent routes
    → lookup k routes ≡ some route
    → Coherent route
unfolding lookup
lookup-Coherent k [] route t h = absurd (ground (arith, h))
lookup-Coherent k ((j, r) ∷ routes) route t h = elim (Bool-cases (j == k)) [
  | inl e ↦ subst Coherent (ground (arith, rw e at h)) t.0
  | inr e ↦ lookup-Coherent k routes route t.1 (rw e at h)
]

-- The route of the last of the models with that ID that has one.
abbrev pub last_route : Bytes → List StoredModel → Option ModelRoute
last_route id [] = none
last_route id (m ∷ models) =
    let route = route_for_stored_model m in
    elim (last_route id models) [
      | some r ↦ some r
      | none ↦ if not (m.id == []) && not (route.path == []) && m.id == id then some route else none
    ]

put_routes_lem :
    (auth a id : Bytes) (models : List StoredModel) (routes : Map RouteKey ModelRoute)
    → lookup (record { auth_id = a; model_id = id }) (put_routes auth models routes) ≡ (
        if a == auth
        then elim (last_route id models) [
          | some r ↦ some r
          | none ↦ lookup (record { auth_id = a; model_id = id }) routes
        ]
        else lookup (record { auth_id = a; model_id = id }) routes)
unfolding put_routes same_key
put_routes_lem auth a id [] routes = ground arith
put_routes_lem auth a id (m ∷ models) routes =
    let route = route_for_stored_model m in
    let key : RouteKey = record { auth_id = auth; model_id = m.id } in
    let wanted : RouteKey = record { auth_id = a; model_id = id } in
    let next = lookup-insert key wanted route routes in
    let later = put_routes_lem auth a id models routes in
    let later_put = put_routes_lem auth a id models (insert key route routes) in
    elim (Bool-cases (not (m.id == []) && not (route.path == []))) [
      | inl e ↦ rw e (ground (arith, later_put, next, bytes_eq_iff a auth, bytes_eq_iff auth a, e))
      | inr e ↦ rw e (ground (arith, later, e))
    ]

delete_routes_of_lem :
    (auth a id : Bytes) (routes : Map RouteKey ModelRoute)
    → lookup (record { auth_id = a; model_id = id }) (delete_routes_of auth routes)
      ≡ (if a == auth then none else lookup (record { auth_id = a; model_id = id }) routes)
unfolding delete_routes_of lookup same_key
delete_routes_of_lem auth a id [] = ground arith
delete_routes_of_lem auth a id ((j, r) ∷ routes) =
    let rest = delete_routes_of_lem auth a id routes in
    elim (Bool-cases (j.auth_id == auth)) [
      | inl e ↦ rw e (
          ground (
            arith,
            rest,
            e,
            bytes_eq_iff j.auth_id auth,
            bytes_eq_iff j.auth_id a,
            bytes_eq_iff a auth,
          ))
      | inr e ↦ rw e (
          ground (
            arith,
            rest,
            e,
            bytes_eq_iff j.auth_id auth,
            bytes_eq_iff j.auth_id a,
            bytes_eq_iff a auth,
          ))
    ]

-- After a credential's models are set, the route of an ID is that of the last model with the ID
-- that has an endpoint, and none if no model does, so that no route of an earlier catalog is left;
-- the routes of the other credentials are unchanged.
pub set_model_routes_lem :
    (auth a id : Bytes) (models : List StoredModel) (routes : Map RouteKey ModelRoute)
    → lookup (record { auth_id = a; model_id = id }) (set_model_routes auth models routes) ≡ (
        if a == trim_space auth
        then last_route id models
        else lookup (record { auth_id = a; model_id = id }) routes)
unfolding set_model_routes
set_model_routes_lem auth a id models routes = ground (
  arith,
  put_routes_lem (trim_space auth) a id models (delete_routes_of (trim_space auth) routes),
  delete_routes_of_lem (trim_space auth) a id routes,
)

cached_route-Coherent :
    (auth model : Bytes) (routes : Map RouteKey ModelRoute)
    → AllCoherent routes
    → Coherent (cached_route auth model routes)
unfolding cached_route Coherent bare_route
cached_route-Coherent auth model routes t =
    let key : RouteKey = record { auth_id = trim_space auth; model_id = trim_space model } in
    elim (Option-cases (lookup key routes)) [
      | inl e ↦ rw (cached_route, e) refl
      | inr (route, e) ↦ elim (Bool-cases (not (route.path == []))) [
        | inl p ↦ rw (cached_route, e, p) (lookup-Coherent key routes route t e)
        | inr p ↦ rw (cached_route, e, p) refl
      ]
    ]

-- In a coherent table, a request resolves to a route whose path is that of the route's format; a
-- model that is not supported resolves to no path.
pub resolve_model_route-Coherent :
    (auth model : Bytes) (storage : CatalogStorage) (routes : Map RouteKey ModelRoute)
    → AllCoherent routes
    → Coherent (resolve_model_route auth model storage routes)
      × (is_supported_copilot_model_id model ≡ false
          → (resolve_model_route auth model storage routes).path ≡ [])
unfolding resolve_model_route cached_route Coherent endpoint_path
resolve_model_route-Coherent auth model storage routes t =
    elim (Bool-cases (is_supported_copilot_model_id model)) [
      | inr e ↦ rw e (refl, λ h. refl)
      | inl e ↦ elim (Option-cases (find_model model storage.models)) [
        | inr (m, f) ↦ rw (e, f) (route-Coherent m, λ h. absurd (ground (arith, h)))
        | inl f ↦
            elim (Bool-cases
              (not (is_empty storage.models) || ltb_ℤ (pos 0) storage.models_fetched_at)) [
                | inl g ↦ rw (e, f, g) (refl, λ h. refl)
                | inr g ↦
                    rw (e, f, g)
                      (cached_route-Coherent auth model routes t, λ h. absurd (ground (arith, h)))
              ]
      ]
    ]
