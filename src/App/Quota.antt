-- ===== src/App/Quota.antt =====
-- internal/app/accounts.go: `checkQuota`, cut at its locks: each function is one section under the
-- account's mutex, and other sections may run between them. The parsing of time.Parse is a
-- parameter (`none` where it fails).
mod Guards
mod Examples
use cpa_github_copilot.Common.{
  ℕ, ◌+◌, ◌*◌, Bool, true, false, not, ◌&&◌, ◌||◌, Option, none, some, [], ltb, nat_eq,
  if◌then◌else◌, Bytes, Bytes_eq, Eq, ◌==◌, codes,
}
use cpa_github_copilot.App.Account.{Account, AccountState, Guard, Quota, QuotaAdmission}

abbrev pub second : ℕ
second = 1_000_000_000

abbrev pub minute : ℕ
minute = 60_000_000_000

abbrev pub state_block : Bytes
state_block = codes "block"

abbrev pub state_allow : Bytes
state_allow = codes "allow"

pub record TimeParser : Type 0 where
  pub rfc3339 : Bytes → Option ℕ
  pub date : Bytes → Option ℕ

-- `parseReset`: the zero time where neither layout fits.
unfoldable pub parse_reset : TimeParser → Bytes → ℕ
parse_reset p value = elim (p.rfc3339 value) [
  | some t ↦ t
  | none ↦ elim (p.date value) [ some t ↦ t | none ↦ 0 ]
]

-- What the first section decides: an error, another turn after the flight that is on, nothing to
-- do, or the request.
pub data Start : Type 0 where
  removed await_flight nothing_due fetch : Start

unfoldable pub quota_start : Account → ℕ → Account × Start
quota_start a now =
    if a.deleted
    then (a, removed)
    else if a.quota_flight
    then (a, await_flight)
    else if ltb now a.next_quota
    then (a, nothing_due)
    else (record a { quota_flight = true }, fetch)

-- `Guard{}`.
abbrev pub no_guard : Guard
no_guard = record { blocked = false; reason = []; reset_at = 0 }

unfoldable pub observe_block : ℕ → ℕ → Guard → Guard
observe_block now reset g = record {
  blocked = true;
  reason = codes "additional_budget_exceeded";
  reset_at =
      if not g.blocked || nat_eq g.reset_at 0 || (not (ltb now g.reset_at) && ltb g.reset_at reset)
      then reset
      else g.reset_at;
}

unfoldable pub observe_allow : ℕ → ℕ → Guard → Guard
observe_allow now reset g =
    if not (nat_eq g.reset_at 0)
      && not (ltb now g.reset_at)
      && ltb g.reset_at reset
      && ltb now reset
    then no_guard
    else if nat_eq g.reset_at 0 && not (nat_eq reset 0)
    then record g { reset_at = reset }
    else g

-- The guard after an observation.
unfoldable pub observe : TimeParser → ℕ → Option QuotaAdmission → Guard → Guard
unfolding observe_block observe_allow
observe p now none g = g
observe p now (some obs) g =
    if obs.state == state_block
    then observe_block now (parse_reset p obs.reset_time) g
    else if obs.state == state_allow && g.blocked
    then observe_allow now (parse_reset p obs.reset_time) g
    else g

-- `!a.deleted && a.epoch == epoch`.
unfoldable pub is_current : Account → ℕ → Bool
is_current a epoch = not a.deleted && nat_eq a.epoch epoch

abbrev pub quota_due : ℕ → Quota → ℕ
quota_due now q =
    if ltb 60 q.retry_after_seconds then now + q.retry_after_seconds * second else now + minute

-- The section after the request: `failed` is `err != nil`. With the state to be saved.
unfoldable pub quota_commit :
    TimeParser → Account → ℕ → ℕ → Quota → Bool → Account × Option AccountState
unfolding observe is_current
quota_commit p a epoch now q failed =
    let guard = observe p now q.admission a.guard in
    let quota : Quota = record q { observed_at = now } in
    if not (is_current a epoch)
    then (a, none)
    else if not failed && not q.stale
    then (
      record a { next_quota = quota_due now q; guard = guard; quota = quota },
      some (record { identity = a.identity; guard = guard; quota = quota }),
    )
    else (
      record a { next_quota = quota_due now q; quota = record (a.quota) { stale = true } },
      none,
    )

-- The section after a state file that could not be written.
unfoldable pub quota_save_failed : Account → ℕ → Account
unfolding is_current
quota_save_failed a epoch =
    if is_current a epoch
    then record a {
      guard = record (a.guard) { blocked = true; reason = codes "budget_state_write_failed" };
    }
    else a

-- The last section.
unfoldable pub quota_finish : Account → Account
quota_finish a = record a { quota_flight = false }
