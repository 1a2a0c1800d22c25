-- ===== src/App/PublicModels.antt =====
-- internal/app/server.go: `publicModels`, the list of model IDs for clients. `matches` stands for
-- filepath.Match (false where the pattern is malformed). The loop over the aliases reads a Go map,
-- whose order is not fixed: it is a list here, and the result is sorted.
mod Listed
mod Examples
use cpa_github_copilot.Common.{
  Bool, true, false, not, ◌&&◌, ◌||◌, Option, List, [], ◌∷◌, ◌++◌, if◌then◌else◌, any, keep_if,
  Bytes, Bytes_eq, Eq, ◌==◌, bytes_lt, sort, Map,
}

-- What `listAccounts` tells of an account.
pub record Listing : Type 0 where
  pub disabled : Bool
  pub models : List Bytes

pub contains_id : Bytes → List Bytes → Bool
contains_id id ids = any (λ i. i == id) ids

module _ (matches : Bytes → Bytes → Bool) where
  pub is_excluded : List Bytes → Bytes → Bool
  is_excluded patterns id = any (λ p. matches p id) patterns

  -- The loop over the models of one account, from the IDs seen before, which are those listed.
  pub add_models : List Bytes → List Bytes → List Bytes → List Bytes
  unfolding is_excluded contains_id
  add_models patterns seen [] = seen
  add_models patterns seen (id ∷ ids) =
      add_models patterns
        (if not (is_excluded patterns id) && not (contains_id id seen)
          then seen ++ (id ∷ [])
          else seen)
        ids

  -- The loop over the accounts.
  pub native_models : List Bytes → List Bytes → List Listing → List Bytes
  unfolding add_models
  native_models patterns seen [] = seen
  native_models patterns seen (a ∷ accounts) =
      native_models patterns (if a.disabled then seen else add_models patterns seen a.models)
        accounts

-- The loop over the aliases.
pub alias_models : List Bytes → Map Bytes Bytes → List Bytes
unfolding contains_id
alias_models seen [] = []
alias_models seen ((alias, native) ∷ aliases) =
    let rest = alias_models seen aliases in
    if contains_id native seen && not (contains_id alias seen) then alias ∷ rest else rest

unfoldable pub public_models :
    (Bytes → Bytes → Bool) → List Bytes → Map Bytes Bytes → List Listing → List Bytes
unfolding native_models alias_models
public_models matches patterns aliases accounts =
    let native = native_models matches patterns [] accounts in
    sort bytes_lt (native ++ alias_models native aliases)
