-- ===== src/App/Candidates/Turns.antt =====
-- internal/app/server.go: the turns that `candidates` takes under round robin.

use cpa_github_copilot.Common.{
  ℕ, ◌%◌, ◌<◌, ◌≡◌, refl, false, List, [], ◌∷◌, arith, length, get_elem?, take, drop, keep_if, All,
  All-take, All-drop, get_elem?-drop, All-append, ℤ, sort, Sorted, sort-of_Sorted, All-sort,
  Bytes_eq, bytes_eq,
}
use cpa_github_copilot.App.Account.{Account}
use cpa_github_copilot.App.Candidates.{
  Scheduler, Routing, round_robin, fill_first, is_available, id_before, priority_before, rotated,
  next_sequence, ranked, candidates,
}

-- All accounts of a list have one priority.
abbrev pub SamePriority : ℤ → List Account → Type 0
SamePriority p = All (λ a. a.priority ≡ p)

SamePriority-Sorted : (p : ℤ) (out : List Account) → SamePriority p out → Sorted priority_before out
SamePriority-Sorted p [] h = tt
SamePriority-Sorted p (a ∷ out) h = (equal out h.1, SamePriority-Sorted p out h.1)
  where
    equal : (bs : List Account) → SamePriority p bs → All (λ b. priority_before b a ≡ false) bs
    equal [] k = tt
    equal (b ∷ bs) k = (ground (arith, h.0), equal bs k.1)

SamePriority-rotated :
    (p : ℤ) (r : Routing) (n : ℕ) (out : List Account)
    → SamePriority p out
    → SamePriority p (rotated r n out)
unfolding rotated
SamePriority-rotated p round_robin n [] h = tt
SamePriority-rotated p round_robin n (a ∷ out) h =
    let k = n % length (a ∷ out) in
    All-append (λ a. a.priority ≡ p) (drop k (a ∷ out)) (take k (a ∷ out))
      (All-drop _ k (a ∷ out) h) (All-take _ k (a ∷ out) h)
SamePriority-rotated p fill_first n out h = h

get_elem?-rotated :
    (n : ℕ) (out : List Account)
    → 0 < length out
    → get_elem? (rotated round_robin n out) 0 ≡ get_elem? out (n % length out)
unfolding rotated
get_elem?-rotated n [] h = elim h [ ]
get_elem?-rotated n (a ∷ out) h =
    let k = n % length (a ∷ out) in get_elem?-drop k (a ∷ out) (take k (a ∷ out)) (omega arith)

ranked_same :
    (s : Scheduler) (now : ℕ) (p : ℤ)
    → SamePriority p (keep_if (is_available now) s.accounts)
    → ranked s now
      ≡ rotated s.routing
          (next_sequence s.sequence)
          (sort id_before (keep_if (is_available now) s.accounts))
unfolding ranked
ranked_same s now p same =
    let available = keep_if (is_available now) s.accounts in
    sort-of_Sorted priority_before _ (
      SamePriority-Sorted p _ (
        SamePriority-rotated p s.routing (next_sequence s.sequence) (sort id_before available)
          (All-sort id_before (λ a. a.priority ≡ p) available same)))

candidates_no_session :
    (s : Scheduler) (now : ℕ)
    → candidates s [] now ≡ (record s { sequence = next_sequence s.sequence }, ranked s now)
unfolding candidates bytes_eq
candidates_no_session s now = ground arith

-- Round robin takes turns: where the available accounts have one priority, the account that a
-- request (with no session) tries first is, of those accounts in the order of their ids, the one
-- whose place is the request's sequence number modulo their count.
round_robin_turn :
    (s : Scheduler) (now : ℕ) (p : ℤ)
    → s.routing ≡ round_robin
    → SamePriority p (keep_if (is_available now) s.accounts)
    → 0 < length (sort id_before (keep_if (is_available now) s.accounts))
    → let named = sort id_before (keep_if (is_available now) s.accounts) in
      (get_elem? (candidates s [] now).1 0
        ≡ get_elem? named (next_sequence s.sequence % length named))
      × ((candidates s [] now).0.sequence ≡ next_sequence s.sequence)
round_robin_turn s now p robin same some_left =
    let named = sort id_before (keep_if (is_available now) s.accounts) in
    rw (candidates_no_session s now, ranked_same s now p same, robin)
      (get_elem?-rotated (next_sequence s.sequence) named some_left, refl)
