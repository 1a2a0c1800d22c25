-- ===== src/App/Account.antt =====
-- internal/app/accounts.go and internal/contract/types.go: the state of an account. A time is a
-- number of nanoseconds, 0 the zero time. A flight (`chan struct{}`) is whether there is one.
pub mod Sample
use cpa_github_copilot.Common.{ℕ, ℤ, Bool, Option, Bytes, Map}
use cpa_github_copilot.Common.Json.{Json}

pub record Guard : Type 0 where
  pub blocked : Bool
  pub reason : Bytes
  pub reset_at : ℕ

-- contract.QuotaAdmission.
pub record QuotaAdmission : Type 0 where
  pub state : Bytes
  pub reset_time : Bytes

-- contract.QuotaFetchResponse; `report` is what is only shown (subscription, groups, summary).
pub record Quota : Type 0 where
  pub stale : Bool
  pub admission : Option QuotaAdmission
  pub retry_after_seconds : ℕ
  pub observed_at : ℕ
  pub report : Bytes

-- contract.AuthData; `storage` is StorageJSON as encoding/json reads it, `none` if it does not.
pub record AuthData : Type 0 where
  pub id : Bytes
  pub file_name : Bytes
  pub disabled : Bool
  pub storage : Option (Map Bytes Json)
  pub next_refresh_after : ℕ

-- `accountState`, what the state file holds.
pub record AccountState : Type 0 where
  pub identity : Bytes
  pub guard : Guard
  pub quota : Quota

-- The texts "", "auth" and "rate".
pub data CooldownKind : Type 0 where
  unset auth_failure rate_limit : CooldownKind

pub record Account : Type 0 where
  pub id : Bytes
  pub auth : AuthData
  pub raw : Map Bytes Json
  pub epoch : ℕ
  pub deleted : Bool
  pub disabled : Bool
  pub priority : ℤ
  pub proxy : Bytes
  pub identity : Bytes
  pub guard : Guard
  pub quota : Quota
  pub next_quota : ℕ
  pub time_refresh : ℕ
  pub cooldown : ℕ
  pub next_models : ℕ
  pub cooldown_kind : CooldownKind
  pub quota_flight : Bool
  pub refresh_flight : Bool
