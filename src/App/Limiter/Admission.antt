-- ===== src/App/Limiter/Admission.antt =====
-- internal/app/security.go: what `admitCredential` answers after any attempts.
use cpa_github_copilot.Common.{
  ℕ, ◌-◌, ◌<◌, ◌≡◌, ◌⊎◌, inl, inr, sym, subst, Bool, true, false, some, List, [], ◌∷◌, arith,
  length, eq_self, All, lookup, Bool-cases, Bytes, Bytes_eq, ◌==◌, eq→path,
}
use cpa_github_copilot.App.ClientKey.{AuthClient, AuthClient_eq}
use cpa_github_copilot.App.Limiter.{
  AuthFailure, AuthLimiter, admitted, too_many_auth_failures, blocked, fail, remember, is_known,
  known_key, admit_credential, auth_tracked_clients, retry_after, count_failure,
}
use cpa_github_copilot.App.Limiter.Blocking.{fail_isolated}

-- One request with a credential.
pub record Attempt : Type 0 where
  pub client : AuthClient
  pub given : Bytes
  pub valid : Bool
  pub at : ℕ

module _ (sha256 : Bytes → Bytes) where
  remember-is_known :
      (l : AuthLimiter) (scope key : Bytes)
      → (length l.known < auth_tracked_clients) ⊎ (is_known sha256 l scope key ≡ true)
      → is_known sha256 (remember sha256 l scope key) scope key ≡ true
  unfolding remember is_known
  remember-is_known l scope key room = ground (arith, eq_self (known_key sha256 scope key))

  -- `remember` and `fail` forget no known key.
  remember-keeps :
      (l : AuthLimiter) (scope key scope' key' : Bytes)
      → is_known sha256 l scope key ≡ true
      → is_known sha256 (remember sha256 l scope' key') scope key ≡ true
  unfolding remember is_known
  remember-keeps l scope key scope' key' h = ground arith

  fail-known :
      (l : AuthLimiter) (client : AuthClient) (now : ℕ) → (fail l client now).0.known ≡ l.known
  unfolding fail count_failure
  fail-known l client now = ground arith

  admit-keeps :
      (l : AuthLimiter) (a : Attempt) (scope key : Bytes)
      → is_known sha256 l scope key ≡ true
      → is_known sha256 (admit_credential sha256 l a.client a.given a.valid a.at).0 scope key ≡ true
  unfolding admit_credential is_known
  admit-keeps l a scope key h =
      ground (arith, remember-keeps l scope key a.client.scope a.given, fail-known l a.client a.at)

  pub admit_all : AuthLimiter → List Attempt → AuthLimiter
  admit_all l [] = l
  admit_all l (a ∷ as') = admit_all (admit_credential sha256 l a.client a.given a.valid a.at).0 as'

  admit_all-keeps :
      (l : AuthLimiter) (attempts : List Attempt) (scope key : Bytes)
      → is_known sha256 l scope key ≡ true
      → is_known sha256 (admit_all l attempts) scope key ≡ true
  unfolding admit_all
  admit_all-keeps l [] scope key h = h
  admit_all-keeps l (a ∷ as') scope key h =
      admit_all-keeps (admit_credential sha256 l a.client a.given a.valid a.at).0 as' scope key
        (admit-keeps l a scope key h)

  -- A right key that was admitted while the table of known keys had room keeps working: after any
  -- further attempts by anyone, it is admitted, if it is still right, from any client of the same
  -- scope, blocked or not.
  known_key_admitted :
      (l : AuthLimiter) (client other : AuthClient) (given : Bytes) (now later : ℕ)
      (attempts : List Attempt)
      → length l.known < auth_tracked_clients
      → blocked l client now ≡ 0
      → other.scope ≡ client.scope
      → let l' = admit_all (admit_credential sha256 l client given true now).0 attempts in
        (admit_credential sha256 l' other given true later).1 ≡ admitted
  unfolding admit_credential
  known_key_admitted l client other given now later attempts room free same =
      let stored = remember-is_known l client.scope given (inl room) in
      ground (
        arith,
        admit_all-keeps (remember sha256 l client.scope given) attempts client.scope given stored,
      )

  blocked-until :
      (l : AuthLimiter) (client : AuthClient) (entry : AuthFailure) (now : ℕ)
      → lookup client l.clients ≡ some entry
      → now < entry.blocked_till
      → blocked l client now ≡ entry.blocked_till - now
  unfolding blocked
  blocked-until l client entry now found early = ground (arith, found)

  remember-clients :
      (l : AuthLimiter) (scope key : Bytes) → (remember sha256 l scope key).clients ≡ l.clients
  unfolding remember
  remember-clients l scope key = ground arith

  -- An attempt during a block, by the blocked client or another, leaves the blocked client's entry.
  admit-entry :
      (l : AuthLimiter) (client : AuthClient) (entry : AuthFailure) (a : Attempt)
      → lookup client l.clients ≡ some entry
      → a.at < entry.blocked_till
      → lookup client (admit_credential sha256 l a.client a.given a.valid a.at).0.clients
        ≡ some entry
  unfolding admit_credential
  admit-entry l client entry a found early = elim (Bool-cases (a.client == client)) [
    | inl same ↦
        let wait =
          blocked-until l a.client entry a.at
            (subst (λ c. lookup c l.clients ≡ some entry) (sym (eq→path a.client client same))
              found)
            early in
        ground (arith, wait, remember-clients l a.client.scope a.given)
    | inr other ↦
        let wait = blocked-until l client entry a.at found early in
        let isolated =
          fail_isolated l a.client client a.at
            (λ e.
              absurd (ground (arith, eq_self client, subst (λ c. (c == client) ≡ false) e other)))
            (omega (arith, wait)) in
        ground (arith, isolated, remember-clients l a.client.scope a.given)
  ]

  admit_all-entry :
      (l : AuthLimiter) (client : AuthClient) (entry : AuthFailure) (attempts : List Attempt)
      → lookup client l.clients ≡ some entry
      → All (λ a. a.at < entry.blocked_till) attempts
      → lookup client (admit_all l attempts).clients ≡ some entry
  unfolding admit_all
  admit_all-entry l client entry [] found early = found
  admit_all-entry l client entry (a ∷ as') found early =
      admit_all-entry (admit_credential sha256 l a.client a.given a.valid a.at).0 client entry as'
        (admit-entry l client entry a found early.0) early.1

  -- A block is no oracle and cannot be lifted or lengthened by guessing: a client that is blocked
  -- until some time stays blocked until then, whatever attempts, its own or others', right or wrong,
  -- come before it; and after them, before that time, a right key of it and a wrong one get the same
  -- answer, 429 with the seconds that are left, rounded up, unless that key is a known one.
  pub blocked_no_oracle :
      (l : AuthLimiter) (client : AuthClient) (entry : AuthFailure) (attempts : List Attempt)
      (given : Bytes) (later : ℕ)
      → lookup client l.clients ≡ some entry
      → All (λ a. a.at < entry.blocked_till) attempts
      → later < entry.blocked_till
      → let l' = admit_all l attempts in
        (lookup client l'.clients ≡ some entry)
        × (blocked l' client later ≡ entry.blocked_till - later)
        × ((is_known sha256 l' client.scope given ≡ true)
            ⊎ ((valid : Bool)
                → admit_credential sha256 l' client given valid later
                  ≡ (l', too_many_auth_failures (retry_after (entry.blocked_till - later)), false)))
  unfolding admit_credential
  blocked_no_oracle l client entry attempts given later found early soon =
      let l' = admit_all l attempts in
      let kept = admit_all-entry l client entry attempts found early in
      let wait = blocked-until l' client entry later kept soon in
      elim (Bool-cases (is_known sha256 l' client.scope given)) [
        | inl known ↦ (kept, wait, inl known)
        | inr unknown ↦ (kept, wait, inr (λ valid. ground (arith, wait, unknown)))
      ]
