-- ===== src/App/Candidates.antt =====
-- internal/app/server.go: `candidates`, which orders the accounts that may serve a request. The
-- map `s.accounts` is the list of its values; `sequence` is a uint64.
mod Order
mod Turns
mod Sticky
mod Examples
use cpa_github_copilot.Common.{
  ℕ, ◌+◌, ◌%◌, ◌^◌, Bool, true, false, not, ◌&&◌, Option, none, some, List, [], ◌∷◌, ◌++◌, ltb, leb,
  ltb_ℤ, if◌then◌else◌, length, take, drop, keep_if, sort, Eq, ◌==◌, Bytes, Bytes_eq, bytes_lt, Map,
  lookup,
}
use cpa_github_copilot.App.Account.{Account}
use cpa_github_copilot.App.Affinity.{Binding, is_expired, bind_session_locked}

-- `routing-strategy`; LoadConfig admits no other.
pub data Routing : Type 0 where
  round_robin fill_first : Routing

-- The part of the server that the scheduling reads and writes.
pub record Scheduler : Type 0 where
  pub routing : Routing
  pub session_affinity : Bool
  pub session_affinity_ttl : ℕ
  pub accounts : List Account
  pub affinity : Map Bytes Binding
  pub sequence : ℕ

unfoldable pub is_available : ℕ → Account → Bool
is_available now a =
    not a.deleted && not a.disabled && not a.guard.blocked && not (ltb now a.cooldown)

-- `out[i].id < out[j].id`, and `pi > pj`.
abbrev pub id_before : Account → Account → Bool
id_before a b = bytes_lt a.id b.id

abbrev pub priority_before : Account → Account → Bool
priority_before a b = ltb_ℤ b.priority a.priority

-- `out = append(out[n:], out[:n]...)`.
pub rotate {ℓ} : {A : Type ℓ} → ℕ → List A → List A
rotate n out = drop n out ++ take n out

pub rotated : Routing → ℕ → List Account → List Account
unfolding rotate
rotated round_robin offset [] = []
rotated round_robin offset (a ∷ out) = rotate (offset % length (a ∷ out)) (a ∷ out)
rotated fill_first offset out = out

pub next_sequence : ℕ → ℕ
next_sequence sequence = (sequence + 1) % 2 ^ 64

-- The candidates before the affinity is looked at.
pub ranked : Scheduler → ℕ → List Account
unfolding is_available rotated next_sequence
ranked s now = sort priority_before (
    rotated s.routing (next_sequence s.sequence)
      (sort id_before (keep_if (is_available now) s.accounts)))

-- The account with an id, and the others in their order.
pub extract : Bytes → List Account → Option (Account × List Account)
extract id [] = none
extract id (a ∷ out) =
    let rest = extract id out in
    if a.id == id
    then some (a, out)
    else elim rest [ none ↦ none | some (found, others) ↦ some (found, a ∷ others) ]

-- The live binding of a session.
pub bound_id : Scheduler → Bytes → ℕ → Option Bytes
bound_id s session now = elim (lookup session s.affinity) [
  | none ↦ none
  | some bound ↦ if is_expired now bound then none else some bound.id
]

-- The bound account moved to the front, if it is a candidate.
pub promote : Option Bytes → List Account → Option (List Account)
unfolding extract
promote none out = none
promote (some id) out = elim (extract id out) [
  | none ↦ none
  | some (found, others) ↦ some (found ∷ others)
]

-- The reservation of the first candidate for the session.
pub reserve : Scheduler → Bytes → List Account → ℕ → Scheduler
reserve s session [] now = s
reserve s session (a ∷ out) now = record s {
  affinity = bind_session_locked s.session_affinity_ttl s.affinity session a.id now;
}

pub candidates : Scheduler → Bytes → ℕ → Scheduler × List Account
unfolding ranked bound_id promote reserve
candidates s session now =
    let out = ranked s now in
    let s' = record s { sequence = next_sequence s.sequence } in
    if s.session_affinity && not (session == [])
    then elim (promote (bound_id s session now) out) [
      | none ↦ (reserve s' session out now, out)
      | some promoted ↦ (s', promoted)
    ]
    else (s', out)
