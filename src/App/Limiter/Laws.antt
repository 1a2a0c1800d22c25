-- ===== src/App/Limiter/Laws.antt =====
-- internal/app/security.go: what each operation of the limiter keeps of its tables.
use cpa_github_copilot.Common.{
  ℕ, ◌+◌, ◌≤◌, ◌<◌, ◌≡◌, refl, ◌⊎◌, inl, inr, not, Bool, true, false, [], ◌∷◌, arith, ltb, leb, ◌-◌,
  if◌then◌else◌, length, All, All-keep_if, length-keep_if, Map, lookup, insert, is_present,
  length-insert, Bytes, Option-cases,
}
use cpa_github_copilot.App.ClientKey.{AuthClient, AuthClient_eq}
use cpa_github_copilot.App.Limiter.{
  AuthFailure, AuthLimiter, is_stale, evict, count_failure, fail, new_entry, remember,
  admit_credential, auth_tracked_clients, auth_failure_limit, auth_failure_window,
  auth_block_duration,
}

-- The tables are within their bounds, and each count is below the limit.
pub record WellFormed (l : AuthLimiter) : Type 0 where
  pub clients_bounded : length l.clients ≤ auth_tracked_clients
  pub known_bounded : length l.known ≤ auth_tracked_clients
  pub counts_bounded : All (λ e. e.1.count < auth_failure_limit) l.clients

All-insert :
    (k : AuthClient) (v : AuthFailure) (m : Map AuthClient AuthFailure)
    → v.count < auth_failure_limit
    → All (λ e. e.1.count < auth_failure_limit) m
    → All (λ e. e.1.count < auth_failure_limit) (insert k v m)
unfolding insert
All-insert k v [] h a = (h, tt)
All-insert k v ((j, w) ∷ m) h a = ground (arith, All-insert k v m h a.1)

-- What `count_failure` writes below the limit, and at it.
abbrev counted : AuthFailure → ℕ → AuthFailure
counted entry now =
    let fresh = ltb auth_failure_window (now - entry.window) in
    record {
      count = (if fresh then 0 else entry.count) + 1;
      window = if fresh then now else entry.window;
      blocked_till = entry.blocked_till;
    }

abbrev blocking : ℕ → AuthFailure
blocking now = record { count = 0; window = now; blocked_till = now + auth_block_duration }

-- An entry that has room, or that stands there already, is counted without growing past the bound.
count_failure-WellFormed :
    (l : AuthLimiter) (client : AuthClient) (entry : AuthFailure) (now : ℕ)
    → WellFormed l
    → ((is_present client l.clients ≡ true) ⊎ (length l.clients < auth_tracked_clients))
    → WellFormed (count_failure l client entry now).0
unfolding count_failure
count_failure-WellFormed l client entry now v room = ground (
  arith,
  length-insert client (counted entry now) l.clients,
  length-insert client (blocking now) l.clients,
  All-insert client (counted entry now) l.clients,
  All-insert client (blocking now) l.clients,
)

evict-WellFormed :
    (l : AuthLimiter) (now : ℕ)
    → WellFormed l
    → WellFormed (record l { clients = evict now l.clients })
unfolding evict
evict-WellFormed l now v = record {
  clients_bounded = omega (arith, v, length-keep_if (λ e. not (is_stale now e.1)) l.clients);
  known_bounded = v.known_bounded;
  counts_bounded = All-keep_if _ _ l.clients v.counts_bounded;
}

-- The path of `fail` for a client with no entry, in a table with room for one.
count_new-WellFormed :
    (l : AuthLimiter) (client : AuthClient) (now : ℕ)
    → WellFormed l
    → leb auth_tracked_clients (length l.clients) ≡ false
    → WellFormed (count_failure l client (new_entry now) now).0
count_new-WellFormed l client now v room =
    count_failure-WellFormed l client (new_entry now) now v (inr (ground arith))

pub fail-WellFormed :
    (l : AuthLimiter) (client : AuthClient) (now : ℕ)
    → WellFormed l
    → WellFormed (fail l client now).0
unfolding fail is_present
fail-WellFormed l client now v = elim (Option-cases (lookup client l.clients)) [
  | inl absent ↦
      rw (absent, fail)
        (ground (
          arith,
          count_new-WellFormed l client now v,
          evict-WellFormed l now v,
          count_new-WellFormed (record l { clients = evict now l.clients }) client now
              (evict-WellFormed l now v),
        ))
  | inr (entry, found) ↦
      rw (found, fail)
        (count_failure-WellFormed l client entry now v (inl (rw (found, is_present) refl)))
]

pub remember-WellFormed :
    (sha256 : Bytes → Bytes) (l : AuthLimiter) (scope key : Bytes)
    → WellFormed l
    → WellFormed (remember sha256 l scope key)
unfolding remember
remember-WellFormed sha256 l scope key v = ground arith

-- Whatever credentials are presented, by whomever and when: the two tables never exceed 4096
-- entries, and no entry's count reaches the limit of 10.
pub admit_credential-WellFormed :
    (sha256 : Bytes → Bytes) (l : AuthLimiter) (client : AuthClient) (given : Bytes) (valid : Bool)
    (now : ℕ)
    → WellFormed l
    → WellFormed (admit_credential sha256 l client given valid now).0
unfolding admit_credential
admit_credential-WellFormed sha256 l client given valid now v =
    ground
      (arith, fail-WellFormed l client now v, remember-WellFormed sha256 l client.scope given v)
