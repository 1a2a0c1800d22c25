-- ===== src/App/Limiter.antt =====
-- internal/app/security.go: `authLimiter` and `admitCredential`. Times and durations are
-- nanoseconds, and 0 is the zero time. The digest of `knownKey` is crypto/sha256's, a parameter. A
-- Go map is an association list; `range` with `delete` in its body is a filter.
mod Laws
mod Blocking
mod Admission
mod Examples
use cpa_github_copilot.Common.{
  ℕ, suc, ◌+◌, ◌-◌, ◌/◌, Bool, true, false, not, ◌&&◌, ◌||◌, Option, none, some, List, [], ◌∷◌,
  ◌++◌, ltb, leb, if◌then◌else◌, length, any, keep_if, Eq, ◌==◌, Bytes, Bytes_eq, Map, lookup,
  insert,
}
use cpa_github_copilot.App.ClientKey.{AuthClient, AuthClient_eq}

abbrev pub auth_failure_limit : ℕ
auth_failure_limit = 10

-- 10 minutes.
abbrev pub auth_failure_window : ℕ
auth_failure_window = 600_000_000_000

-- 15 minutes.
abbrev pub auth_block_duration : ℕ
auth_block_duration = 900_000_000_000

abbrev pub auth_tracked_clients : ℕ
auth_tracked_clients = 4096

pub record AuthFailure : Type 0 where
  pub count : ℕ
  pub window : ℕ
  pub blocked_till : ℕ

pub record AuthLimiter : Type 0 where
  pub clients : Map AuthClient AuthFailure
  pub known : List Bytes

-- `blocked`: for how long the client is still blocked.
pub blocked : AuthLimiter → AuthClient → ℕ → ℕ
blocked l client now = elim (lookup client l.clients) [
  | none ↦ 0
  | some entry ↦ if ltb now entry.blocked_till then entry.blocked_till - now else 0
]

-- `now.Sub(old.window) > authFailureWindow && !now.Before(old.blockedTill)`.
pub is_stale : ℕ → AuthFailure → Bool
is_stale now old = ltb auth_failure_window (now - old.window) && not (ltb now old.blocked_till)

pub evict : ℕ → Map AuthClient AuthFailure → Map AuthClient AuthFailure
unfolding is_stale
evict now clients = keep_if (λ e. not (is_stale now e.1)) clients

-- The tail of `fail`, with the client's entry at hand.
pub count_failure : AuthLimiter → AuthClient → AuthFailure → ℕ → AuthLimiter × Bool
count_failure l client entry now =
    let fresh = ltb auth_failure_window (now - entry.window) in
    let count = (if fresh then 0 else entry.count) + 1 in
    let window = if fresh then now else entry.window in
    if ltb count auth_failure_limit
    then (
      record l {
        clients =
            insert client
              (record { count = count; window = window; blocked_till = entry.blocked_till })
              l.clients;
      },
      false,
    )
    else (
      record l {
        clients =
            insert client
              (record { count = 0; window = now; blocked_till = now + auth_block_duration })
              l.clients;
      },
      true,
    )

-- The entry of a client that has none.
abbrev pub new_entry : ℕ → AuthFailure
new_entry now = record { count = 0; window = now; blocked_till = 0 }

-- `fail`: the limiter after a wrong key, and whether the client just became blocked.
pub fail : AuthLimiter → AuthClient → ℕ → AuthLimiter × Bool
unfolding count_failure evict
fail l client now = elim (lookup client l.clients) [
  | some entry ↦ count_failure l client entry now
  | none ↦
      if leb auth_tracked_clients (length l.clients)
      then (let kept = record l { clients = evict now l.clients } in
          if leb auth_tracked_clients (length kept.clients)
          then (kept, false)
          else count_failure kept client (new_entry now) now)
      else count_failure l client (new_entry now) now
]

-- What `admitCredential` answers: the caller goes on, 429 with Retry-After, or its rejection.
pub data Verdict : Type 0 where
  admitted : Verdict
  too_many_auth_failures : ℕ → Verdict
  rejected : Verdict

-- `int(math.Ceil(wait.Seconds()))`.
abbrev pub retry_after : ℕ → ℕ
retry_after wait = (wait + 999_999_999) / 1_000_000_000

module _ (sha256 : Bytes → Bytes) where
  pub known_key : Bytes → Bytes → Bytes
  known_key scope key = sha256 (scope ++ (0 ∷ key))

  pub is_known : AuthLimiter → Bytes → Bytes → Bool
  unfolding known_key
  is_known l scope key = any (λ k. k == known_key scope key) l.known

  pub remember : AuthLimiter → Bytes → Bytes → AuthLimiter
  unfolding is_known
  remember l scope key =
      if ltb (length l.known) auth_tracked_clients && not (is_known l scope key)
      then record l { known = known_key scope key ∷ l.known }
      else l

  -- The verdict, and whether `client_blocked` is logged.
  pub admit_credential : AuthLimiter → AuthClient → Bytes → Bool → ℕ → AuthLimiter × Verdict × Bool
  unfolding remember
  admit_credential l client given valid now =
      let wait = blocked l client now in
      if ltb 0 wait && not (valid && is_known l client.scope given)
      then (l, too_many_auth_failures (retry_after wait), false)
      else if valid
      then (remember l client.scope given, admitted, false)
      else if given == []
      then (l, rejected, false)
      else (let (l', blocks) = fail l client now in (l', rejected, blocks))
