-- ===== src/App/Affinity/Examples.antt =====
-- Runs of the affinity table, and its theorems at concrete inputs.
use cpa_github_copilot.Common.{
  ◌≤◌, ◌<◌, ◌≡◌, refl, ◌≢◌, ◌⊎◌, false, some, [], ◌∷◌, arith, length, All, Bytes, codes, Map,
  lookup, is_present, bytes_eq, Bytes_eq,
}
use cpa_github_copilot.App.Affinity.{Binding, max_session_bindings, bind_session_locked}
use cpa_github_copilot.App.Affinity.Eviction.{
  IsTable, bind_session_locked-IsTable, bind_session_locked-keeps,
}

abbrev first : Binding
first = record { id = codes "alice.json"; expires = 500 }

abbrev bound : Map Bytes Binding
bound = (codes "s1", first) ∷ (codes "s2", record { id = codes "bob.json"; expires = 900 }) ∷ []

bound-IsTable : IsTable bound
unfolding lookup bytes_eq
bound-IsTable = record { distinct = (refl, (refl, tt)); bounded = omega arith }

bind_session_locked-IsTable_example :
    lookup (codes "s3") (bind_session_locked 0 bound (codes "s3") (codes "bob.json") 100)
    ≡ some (record { id = codes "bob.json"; expires = 7_200_000_000_100 })
bind_session_locked-IsTable_example =
    (bind_session_locked-IsTable 0 bound (codes "s3") (codes "bob.json") 100 bound-IsTable).1

apart : codes "s3" ≢ codes "s1"
apart e = ground arith

bind_session_locked-keeps_example :
    (lookup (codes "s1") (bind_session_locked 0 bound (codes "s3") (codes "bob.json") 100)
      ≡ some first)
    ⊎ ((is_present (codes "s3") bound ≡ false)
        × (length bound ≡ max_session_bindings)
        × All (λ e. 100 < e.1.expires → 500 ≤ e.1.expires) bound)
unfolding lookup bytes_eq
bind_session_locked-keeps_example =
    bind_session_locked-keeps 0 bound (codes "s3") (codes "bob.json") (codes "s1") first 100
      bound-IsTable apart refl (omega arith)
