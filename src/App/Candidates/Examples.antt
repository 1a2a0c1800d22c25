-- ===== src/App/Candidates/Examples.antt =====
-- Runs of the scheduling, and its theorems at concrete inputs.
use mathlib.Core.List.{Perm}
use cpa_github_copilot.Common.{
  ◌≡◌, refl, ◌⊎◌, true, some, List, [], ◌∷◌, arith, keep_if, pos, sort, codes, bytes_eq, bytes_lt,
  lookup, insert, is_present,
}
use cpa_github_copilot.App.Account.{Account}
use cpa_github_copilot.App.Account.Sample.{named_account}
use cpa_github_copilot.App.Candidates.{Scheduler, round_robin, is_available, bound_id, candidates}
use cpa_github_copilot.App.Affinity.{bind_session_locked}
use cpa_github_copilot.App.Candidates.Order.{Descending, candidates-perm, candidates-Descending}
use cpa_github_copilot.App.Candidates.Sticky.{session_sticks}

abbrev alice : Account
alice = named_account (codes "a.json") (pos 0) 0

abbrev bob : Account
bob = named_account (codes "b.json") (pos 0) 0

-- On cooldown until 1000.
abbrev carol : Account
carol = named_account (codes "c.json") (pos 5) 1000

abbrev pool : Scheduler
pool = record {
  routing = round_robin;
  session_affinity = true;
  session_affinity_ttl = 50;
  accounts = bob ∷ carol ∷ alice ∷ [];
  affinity = [];
  sequence = 6;
}

in_turn : (candidates pool [] 10).1 ≡ bob ∷ alice ∷ []
unfolding candidates is_available sort bytes_lt bytes_eq
in_turn = refl

candidates-perm_example :
    Perm (candidates pool (codes "s") 10).1 (keep_if (is_available 10) pool.accounts)
candidates-perm_example = candidates-perm pool (codes "s") 10

candidates-Descending_example :
    Descending (candidates pool (codes "s") 10).1
    ⊎ ((a : Account) × (rest : List Account) × ((candidates pool (codes "s") 10).1 ≡ a ∷ rest)
        × (bound_id pool (codes "s") 10 ≡ some a.id)
        × Descending rest)
candidates-Descending_example = candidates-Descending pool (codes "s") 10

abbrev pool' : Scheduler
pool' = record pool { sequence = 7; affinity = (candidates pool (codes "s") 10).0.affinity }

session_sticks_example :
    (b : Account) × (others : List Account) × ((candidates pool' (codes "s") 20).1 ≡ b ∷ others)
    × (b.id ≡ bob.id)
    × ((candidates pool' (codes "s") 20).0.affinity ≡ pool'.affinity)
unfolding candidates is_available sort bytes_lt bytes_eq lookup insert is_present
    bind_session_locked
session_sticks_example =
    session_sticks pool pool' (codes "s") 10 20 bob (alice ∷ []) refl refl (λ e. ground arith) refl
      refl (λ e. ground arith) refl
