-- ===== src/Copilot/QuotaAnswer/Budget.antt =====
-- internal/copilot/quota.go with checkQuota and candidates of internal/app: a spent budget takes an
-- account out of the scheduling.
use cpa_github_copilot.Common.{
  ℕ, ◌*◌, ◌<◌, ◌≡◌, refl, true, false, some, arith, Bytes, Bytes_eq, bytes_eq, codes, lt→ltb,
}
use cpa_github_copilot.Common.Json.{Fields}
use cpa_github_copilot.App.Account.{Account, Guard}
use cpa_github_copilot.App.Quota.{TimeParser, is_current, observe, quota_commit, state_block}
use cpa_github_copilot.App.Candidates.{is_available}
use cpa_github_copilot.Copilot.QuotaAnswer.{
  Rat, denominator, QuotaReader, exceeds_budget, admission_state, premium_of, parse_quota,
}

spent-state :
    (count total : Rat)
    → 0 < total.numerator
    → 99 * (denominator count * total.numerator) < 100 * (count.numerator * denominator total)
    → admission_state (some count) (some total) ≡ state_block
unfolding admission_state exceeds_budget
spent-state count total some_total used =
    rw
      (
        lt→ltb 0 total.numerator some_total,
        lt→ltb (99 * (denominator count * total.numerator))
            (100 * (count.numerator * denominator total)) used,
      )
      refl

-- An observation that asks for a block sets the guard.
observe-block :
    (p : TimeParser) (now : ℕ) (reset : Bytes) (g : Guard)
    → (observe p now (some (record { state = state_block; reset_time = reset })) g).blocked ≡ true
unfolding observe bytes_eq
observe-block p now reset g = refl

module _ (reader : QuotaReader) where
  -- When the answer reports that more than 99 % of an additional budget is used, the account that
  -- it is about is no candidate after it has been observed, at any time.
  pub spent_budget_excludes :
      (account : Fields) (count total : Rat) (p : TimeParser) (a : Account) (epoch now later : ℕ)
      → reader.number (premium_of reader account) (codes "overage_count") ≡ some count
      → reader.number (premium_of reader account) (codes "overage_entitlement") ≡ some total
      → 0 < total.numerator
      → 99 * (denominator count * total.numerator) < 100 * (count.numerator * denominator total)
      → is_current a epoch ≡ true
      → is_available later (quota_commit p a epoch now (parse_quota reader account) false).0 ≡ false
  unfolding quota_commit is_available parse_quota
  spent_budget_excludes account count total p a epoch now later c t some_total used current =
      let block = spent-state count total some_total used in
      let guarded : (quota_commit p a epoch now (parse_quota reader account) false).0.guard.blocked
          ≡ true =
        rw (parse_quota, c, t, block, quota_commit, current) (observe-block p now _ a.guard) in
      ground (arith, guarded)
