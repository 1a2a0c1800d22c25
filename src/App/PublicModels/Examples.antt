-- ===== src/App/PublicModels/Examples.antt =====
-- A list of models, and its theorem at it.
use cpa_github_copilot.Common.{
  ◌≡◌, refl, Bool, false, ◌||◌, List, [], ◌∷◌, Bytes, Bytes_eq, bytes_eq, ◌==◌, codes, Map, sort,
  bytes_lt,
}
use cpa_github_copilot.App.PublicModels.{Listing, contains_id, public_models}
use cpa_github_copilot.App.PublicModels.Listed.{is_served, names_alias, public_models_lem}

equals : Bytes → Bytes → Bool
equals pattern' id = pattern' == id

accounts : List Listing
accounts = record { disabled = false; models = codes "b" ∷ codes "a" ∷ codes "c" ∷ [] } ∷ []

aliases : Map Bytes Bytes
aliases = (codes "fast", codes "a") ∷ (codes "old", codes "c") ∷ []

listed :
    public_models equals (codes "c" ∷ []) aliases accounts
    ≡ codes "a" ∷ codes "b" ∷ codes "fast" ∷ []
unfolding public_models equals accounts aliases bytes_eq sort bytes_lt
listed = refl

public_models_lem_example :
    contains_id (codes "fast") (public_models equals (codes "c" ∷ []) aliases accounts) ≡ (
      is_served equals (codes "c" ∷ []) accounts (codes "fast")
      || names_alias (is_served equals (codes "c" ∷ []) accounts) aliases (codes "fast"))
public_models_lem_example =
    public_models_lem equals (codes "c" ∷ []) aliases accounts (codes "fast")
