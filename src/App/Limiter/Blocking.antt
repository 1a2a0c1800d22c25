-- ===== src/App/Limiter/Blocking.antt =====
-- internal/app/security.go: when `fail` blocks a client, and whom it leaves alone.
use cpa_github_copilot.Common.{
  ℕ, suc, ◌+◌, ◌-◌, ◌≤◌, ◌<◌, ◌≡◌, ◌≢◌, inl, inr, true, false, none, some, List, [], ◌∷◌, arith,
  length, All, eq_self, Map, lookup, lookup-insert, Option-cases,
}
use cpa_github_copilot.App.ClientKey.{AuthClient, AuthClient_eq, client_eq_iff}
use cpa_github_copilot.App.Limiter.{
  AuthFailure, AuthLimiter, blocked, is_stale, evict, count_failure, fail, new_entry,
  auth_tracked_clients, auth_failure_limit, auth_failure_window, auth_block_duration,
}

-- The wrong keys of one client at the given times.
pub fail_all : AuthLimiter → AuthClient → List ℕ → AuthLimiter
fail_all l client [] = l
fail_all l client (now ∷ times) = fail_all (fail l client now).0 client times

-- A time within the window that opened at `start`.
abbrev pub InWindow : ℕ → ℕ → Type 0
InWindow start now = now - start ≤ auth_failure_window

fail_below :
    (l : AuthLimiter) (client : AuthClient) (entry : AuthFailure) (now : ℕ)
    → lookup client l.clients ≡ some entry
    → InWindow entry.window now
    → suc entry.count < auth_failure_limit
    → lookup client (fail l client now).0.clients ≡ some (record entry { count = suc entry.count })
unfolding fail count_failure
fail_below l client entry now found inside below = ground (
  arith,
  lookup-insert client client (record entry { count = entry.count + 1 }) l.clients,
  eq_self client,
)

fail_all_below :
    (l : AuthLimiter) (client : AuthClient) (entry : AuthFailure) (times : List ℕ)
    → lookup client l.clients ≡ some entry
    → All (InWindow entry.window) times
    → entry.count + length times < auth_failure_limit
    → lookup client (fail_all l client times).clients
      ≡ some (record entry { count = entry.count + length times })
unfolding fail_all
fail_all_below l client entry [] found inside below = ground arith
fail_all_below l client entry (now ∷ times) found inside below = ground (
  arith,
  fail_all_below (fail l client now).0 client (record entry { count = suc entry.count }) times
      (fail_below l client entry now found inside.0 (omega arith)) inside.1 (omega arith),
)

fail_at_limit :
    (l : AuthLimiter) (client : AuthClient) (entry : AuthFailure) (now : ℕ)
    → lookup client l.clients ≡ some entry
    → InWindow entry.window now
    → suc entry.count ≡ auth_failure_limit
    → ((fail l client now).1 ≡ true)
      × (lookup client (fail l client now).0.clients
          ≡ some (record { count = 0; window = now; blocked_till = now + auth_block_duration }))
unfolding fail count_failure
fail_at_limit l client entry now found inside top = ground (
  arith,
  lookup-insert client client
      (record { count = 0; window = now; blocked_till = now + auth_block_duration }) l.clients,
  eq_self client,
)

fail_first :
    (l : AuthLimiter) (client : AuthClient) (now : ℕ)
    → lookup client l.clients ≡ none
    → length l.clients < auth_tracked_clients
    → lookup client (fail l client now).0.clients
      ≡ some (record { count = 1; window = now; blocked_till = 0 })
unfolding fail count_failure
fail_first l client now absent room = ground (
  arith,
  lookup-insert client client (record { count = 1; window = now; blocked_till = 0 }) l.clients,
  eq_self client,
)

-- Ten wrong keys in a row block: in a table with room, where the client has no entry, if a first
-- failure is followed by eight more and a tenth within 10 minutes of the first, the client is not
-- blocked after the ninth, and the tenth reports a block, which then lasts for exactly 15 minutes.
pub tenth_failure_blocks :
    (l : AuthLimiter) (client : AuthClient) (first last later : ℕ) (times : List ℕ)
    → lookup client l.clients ≡ none
    → length l.clients < auth_tracked_clients
    → length times ≡ 8
    → All (InWindow first) times
    → InWindow first last
    → let nine = fail_all l client (first ∷ times) in
      (blocked nine client later ≡ 0)
      × ((fail nine client last).1 ≡ true)
      × (blocked (fail nine client last).0 client later ≡ last + auth_block_duration - later)
unfolding blocked fail_all
tenth_failure_blocks l client first last later times absent room eight inside close = ground (
  arith,
  entry,
  fail_at_limit (fail_all l client (first ∷ times)) client
      (record { count = 9; window = first; blocked_till = 0 }) last,
)
  where
    entry :
        lookup client (fail_all l client (first ∷ times)).clients
        ≡ some (record { count = 9; window = first; blocked_till = 0 })
    entry = ground (
      arith,
      fail_all_below (fail l client first).0 client
          (record { count = 1; window = first; blocked_till = 0 }) times
          (fail_first l client first absent room) inside (omega arith),
    )

lookup-evict :
    (other : AuthClient) (entry : AuthFailure) (now : ℕ) (m : Map AuthClient AuthFailure)
    → lookup other m ≡ some entry
    → is_stale now entry ≡ false
    → lookup other (evict now m) ≡ some entry
unfolding lookup evict
lookup-evict other entry now [] found live = cc
lookup-evict other entry now ((j, w) ∷ m) found live =
    ground (arith, lookup-evict other entry now m)

lookup-count_failure :
    (l : AuthLimiter) (client other : AuthClient) (entry : AuthFailure) (now : ℕ)
    → client ≢ other
    → lookup other (count_failure l client entry now).0.clients ≡ lookup other l.clients
unfolding count_failure
lookup-count_failure l client other entry now apart = grind (arith, lookup-insert, client_eq_iff)

blocked-is_stale :
    (l : AuthLimiter) (other : AuthClient) (now : ℕ)
    → 0 < blocked l other now
    → (entry : AuthFailure) × (lookup other l.clients ≡ some entry) × (is_stale now entry ≡ false)
unfolding blocked is_stale
blocked-is_stale l other now held = elim (Option-cases (lookup other l.clients)) [
  | inl absent ↦ absurd (ground arith)
  | inr (entry, found) ↦ (entry, found, ground arith)
]

-- One client's wrong keys never lift another client's block: while a client is blocked, its entry
-- is the same after any other client's failure, also if the full table is swept on the way.
pub fail_isolated :
    (l : AuthLimiter) (client other : AuthClient) (now : ℕ)
    → client ≢ other
    → 0 < blocked l other now
    → lookup other (fail l client now).0.clients ≡ lookup other l.clients
unfolding fail
fail_isolated l client other now apart held =
    let (entry, found, live) = blocked-is_stale l other now held in
    let swept : AuthLimiter = record l { clients = evict now l.clients } in
    elim (Option-cases (lookup client l.clients)) [
      | inl absent ↦
          rw (absent, fail)
            (ground (
              arith,
              lookup-evict other entry now l.clients found live,
              lookup-count_failure l client other (new_entry now) now apart,
              lookup-count_failure swept client other (new_entry now) now apart,
            ))
      | inr (mine, present) ↦
          rw (present, fail) (lookup-count_failure l client other mine now apart)
    ]
