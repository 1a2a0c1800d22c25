-- ===== src/App/PublicModels/Listed.antt =====
-- internal/app/server.go: which IDs the list of models has.
use cpa_github_copilot.Common.{
  ◌≡◌, refl, ap, ◌∙◌, fun_ext, inl, inr, Bool, not, ◌&&◌, ◌||◌, List, [], ◌∷◌, ◌++◌, arith, any,
  Bool-cases, Bytes, Bytes_eq, bytes_eq_iff, ◌==◌, bytes_lt, sort, place, Map,
}
use cpa_github_copilot.App.PublicModels.{
  Listing, contains_id, is_excluded, add_models, native_models, alias_models, public_models,
}

any-append : (p : Bytes → Bool) (xs ys : List Bytes) → any p (xs ++ ys) ≡ (any p xs || any p ys)
any-append p [] ys = refl
any-append p (x ∷ xs) ys = ground (arith, any-append p xs ys)

any-place :
    (p : Bytes → Bool) (a : Bytes) (bs : List Bytes) → any p (place bytes_lt a bs) ≡ any p (a ∷ bs)
unfolding place
any-place p a [] = refl
any-place p a (b ∷ bs) = ground (arith, any-place p a bs)

any-sort : (p : Bytes → Bool) (ids : List Bytes) → any p (sort bytes_lt ids) ≡ any p ids
unfolding sort
any-sort p [] = refl
any-sort p (a ∷ ids) = ground (arith, any-place p a (sort bytes_lt ids), any-sort p ids)

-- The ID of some alias of a listed model, unless it is itself the ID of a listed model.
abbrev pub names_alias : (Bytes → Bool) → Map Bytes Bytes → Bytes → Bool
names_alias listed aliases id =
    any (λ (alias, native). alias == id && listed native) aliases && not (listed id)

module _ (matches : Bytes → Bytes → Bool) where
  -- A model of an account that is not disabled, matched by no excluded pattern.
  abbrev pub is_served : List Bytes → List Listing → Bytes → Bool
  is_served patterns accounts id =
      not (is_excluded matches patterns id)
      && any (λ a. not a.disabled && contains_id id a.models) accounts

  add_models_lem :
      (patterns seen ids : List Bytes) (id : Bytes)
      → contains_id id (add_models matches patterns seen ids)
        ≡ (contains_id id seen || (not (is_excluded matches patterns id) && contains_id id ids))
  unfolding add_models contains_id
  add_models_lem patterns seen [] id = ground arith
  add_models_lem patterns seen (i ∷ ids) id =
      let p = λ (j : Bytes). j == id in
      elim (Bool-cases (not (is_excluded matches patterns i) && not (contains_id i seen))) [
        | inl e ↦ rw e (
            ground (
              arith,
              add_models_lem patterns (seen ++ (i ∷ [])) ids id,
              any-append p seen (i ∷ []),
              bytes_eq_iff i id,
              e,
            ))
        | inr e ↦ rw e (ground (arith, add_models_lem patterns seen ids id, bytes_eq_iff i id, e))
      ]

  native_models_lem :
      (patterns seen : List Bytes) (accounts : List Listing) (id : Bytes)
      → contains_id id (native_models matches patterns seen accounts)
        ≡ (contains_id id seen || is_served patterns accounts id)
  unfolding native_models contains_id
  native_models_lem patterns seen [] id = ground arith
  native_models_lem patterns seen (a ∷ accounts) id = elim (Bool-cases a.disabled) [
    | inl e ↦ rw (native_models, e) (ground (arith, native_models_lem patterns seen accounts id, e))
    | inr e ↦
        rw (native_models, e)
          (ground (
            arith,
            native_models_lem patterns (add_models matches patterns seen a.models) accounts id,
            add_models_lem patterns seen a.models id,
            e,
          ))
  ]

alias_models_lem :
    (seen : List Bytes) (aliases : Map Bytes Bytes) (id : Bytes)
    → contains_id id (alias_models seen aliases) ≡ names_alias (λ i. contains_id i seen) aliases id
unfolding alias_models contains_id
alias_models_lem seen [] id = ground arith
alias_models_lem seen ((alias, native) ∷ aliases) id =
    ground (arith, alias_models_lem seen aliases id, bytes_eq_iff alias id)

module _ (matches : Bytes → Bytes → Bool) where
  -- The list has exactly the models of the accounts in use that no pattern excludes, and the aliases
  -- of those, also where an alias is spelled like an excluded model.
  pub public_models_lem :
      (patterns : List Bytes) (aliases : Map Bytes Bytes) (accounts : List Listing) (id : Bytes)
      → contains_id id (public_models matches patterns aliases accounts) ≡ (
          is_served matches patterns accounts id
          || names_alias (is_served matches patterns accounts) aliases id)
  unfolding public_models contains_id
  public_models_lem patterns aliases accounts id =
      let native = native_models matches patterns [] accounts in
      let listed : (λ i. contains_id i native) ≡ is_served matches patterns accounts =
        fun_ext (native_models_lem matches patterns [] accounts) in
      any-sort (λ i. i == id) (native ++ alias_models native aliases)
      ∙ any-append (λ i. i == id) native (alias_models native aliases)
      ∙ ground (
        arith,
        native_models_lem matches patterns [] accounts id,
        alias_models_lem native aliases id,
        ap (λ f. names_alias f aliases id) listed,
      )
