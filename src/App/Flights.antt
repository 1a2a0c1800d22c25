-- ===== src/App/Flights.antt =====
-- internal/app/accounts.go: the single flights of an account. `checkQuota` makes its upstream
-- request under `quotaFlight`; `refresh` and `catalog` make theirs under `refreshFlight`, which they
-- share. Any number of goroutines run these loops on one account; each step of the relation is one
-- section under the account's mutex.
mod Single
mod Examples
use cpa_github_copilot.Common.{
  ℕ, suc, ◌+◌, ◌*◌, ◌≡◌, Bool, true, false, not, ◌&&◌, ◌||◌, Option, none, some, List, [], ◌∷◌, ltb,
  nat_eq, max, if◌then◌else◌, is_some, get_elem?, set, Bytes, Bytes_eq, Map, lookup, ltb_ℤ, pos, ℤ,
}
use cpa_github_copilot.Common.Json.{Json}
use cpa_github_copilot.App.Account.{
  Account, AuthData, Quota, AccountState, CooldownKind, unset, auth_failure, rate_limit,
}
use cpa_github_copilot.App.Quota.{
  TimeParser, Start, removed, await_flight, nothing_due, fetch, quota_start, quota_commit,
  quota_save_failed, quota_finish, is_current, minute,
}

-- The first section of a turn of `refresh`.
pub refresh_start : Account → Bool → ℕ → Account × Start
refresh_start a force now =
    if a.deleted
    then (a, removed)
    else if a.refresh_flight
    then (a, await_flight)
    else if not force && not (nat_eq a.time_refresh 0) && ltb now a.time_refresh
    then (a, nothing_due)
    else (record a { refresh_flight = true }, fetch)

-- The last section: `next` is `next.NextRefreshAfter` where `err == nil`.
pub refresh_finish : Account → ℕ → ℕ → Option ℕ → Account
unfolding is_current
refresh_finish a epoch now next =
    let a' =
      if is_current a epoch
      then elim next [
        | none ↦ record a { time_refresh = now + minute }
        | some due ↦ record a {
          time_refresh = if nat_eq due 0 then now + 15 * minute else due;
          cooldown = elim a.cooldown_kind [ auth_failure ↦ 0 | _ ↦ a.cooldown ];
          cooldown_kind = elim a.cooldown_kind [ auth_failure ↦ unset | kind ↦ kind ];
        }
      ]
      else a in
    record a' { refresh_flight = false }

-- What the first section of `catalog` reads of the raw credential: whether it lists a model of
-- `modelIDs`, and `models_fetched_at` as a time, if it is a number.
pub record CachedModels : Type 0 where
  pub any_supported : Bool
  pub fetched : Option ℕ

pub catalog_start : ℕ → Account → CachedModels → Bool → ℕ → Account × Start
catalog_start ttl a cached force now =
    let expires : ℕ = elim cached.fetched [ none ↦ 0 | some t ↦ t + ttl ] in
    if a.deleted
    then (a, removed)
    else if a.refresh_flight
    then (a, await_flight)
    else if not force
        && not (nat_eq a.next_models 0)
        && ltb now a.next_models
        && cached.any_supported
    then (a, nothing_due)
    else if not force
        && is_some cached.fetched
        && cached.any_supported
        && not (nat_eq ttl 0)
        && ltb now expires
    then (record a { next_models = expires }, nothing_due)
    else (record a { refresh_flight = true }, fetch)

pub catalog_finish : ℕ → Account → ℕ → ℕ → Account
unfolding is_current
catalog_finish ttl a epoch now =
    let a' = if is_current a epoch then record a { next_models = now + max minute ttl } else a in
    record a' { refresh_flight = false }

-- Where a goroutine is: outside of a flight, or in one, with the epoch that it read.
pub data Phase : Type 0 where
  outside : Phase
  quota_request quota_save quota_end : ℕ → Phase
  refresh_request catalog_request : ℕ → Phase

pub record Goroutines : Type 0 where
  pub account : Account
  pub phases : List Phase

-- Another section that touches neither flight: retryAccount, updateAccount, persistAuth,
-- deleteAccount, importAccount.
abbrev pub Touches : Account → Account → Type 0
Touches a b = (a.quota_flight ≡ b.quota_flight) × (a.refresh_flight ≡ b.refresh_flight)

-- Goroutine `i` enters a flight, or goes on in it.
pub data Move (p : TimeParser) (ttl : ℕ) : Account → Phase → Account → Phase → Type 0 where
  quota_starts :
      (a b : Account) (now : ℕ)
      → quota_start a now ≡ (b, fetch)
      → Move p ttl a outside b (quota_request a.epoch)
  quota_commits :
      (a b : Account) (epoch now : ℕ) (q : Quota) (failed : Bool) (s : AccountState)
      → quota_commit p a epoch now q failed ≡ (b, some s)
      → Move p ttl a (quota_request epoch) b (quota_save epoch)
  quota_drops :
      (a b : Account) (epoch now : ℕ) (q : Quota) (failed : Bool)
      → quota_commit p a epoch now q failed ≡ (b, none)
      → Move p ttl a (quota_request epoch) b (quota_end epoch)
  quota_saves : (a : Account) (epoch : ℕ) → Move p ttl a (quota_save epoch) a (quota_end epoch)
  quota_fails :
      (a : Account) (epoch : ℕ)
      → Move p ttl a (quota_save epoch) (quota_save_failed a epoch) (quota_end epoch)
  quota_ends : (a : Account) (epoch : ℕ) → Move p ttl a (quota_end epoch) (quota_finish a) outside
  refresh_starts :
      (a b : Account) (force : Bool) (now : ℕ)
      → refresh_start a force now ≡ (b, fetch)
      → Move p ttl a outside b (refresh_request a.epoch)
  refresh_ends :
      (a : Account) (epoch now : ℕ) (next : Option ℕ)
      → Move p ttl a (refresh_request epoch) (refresh_finish a epoch now next) outside
  catalog_starts :
      (a b : Account) (cached : CachedModels) (force : Bool) (now : ℕ)
      → catalog_start ttl a cached force now ≡ (b, fetch)
      → Move p ttl a outside b (catalog_request a.epoch)
  catalog_ends :
      (a : Account) (epoch now : ℕ)
      → Move p ttl a (catalog_request epoch) (catalog_finish ttl a epoch now) outside

pub data Step (p : TimeParser) (ttl : ℕ) : Goroutines → Goroutines → Type 0 where
  moves :
      (g : Goroutines) (i : ℕ) (from to : Phase) (b : Account)
      → get_elem? g.phases i ≡ some from
      → Move p ttl g.account from b to
      → Step p ttl g (record { account = b; phases = set g.phases i to })
  elsewhere :
      (g : Goroutines) (b : Account) → Touches g.account b → Step p ttl g (record g { account = b })

pub data Reach (p : TimeParser) (ttl : ℕ) (g : Goroutines) : Goroutines → Type 0 where
  here : Reach p ttl g g
  next : {h k : Goroutines} → Reach p ttl g h → Step p ttl h k → Reach p ttl g k
