-- ===== src/App/Quota/Examples.antt =====
-- Runs of `checkQuota`, and its theorems at concrete inputs.
use cpa_github_copilot.Common.{◌≡◌, refl, true, false, none, some, arith, pos, codes, [], ◌∷◌}
use cpa_github_copilot.App.Account.{Account, AccountState, Quota}
use cpa_github_copilot.App.Account.Sample.{named_account}
use cpa_github_copilot.App.Quota.{TimeParser, parse_reset, quota_commit}
use cpa_github_copilot.App.Quota.Guards.{quota_commit-Lifts, quota_commit_holds}

-- A parser that reads the first byte as the time.
abbrev first_byte : TimeParser
first_byte = record { rfc3339 = λ b. elim b [ [] ↦ none | (c ∷ _) ↦ some c ]; date = λ _. none }

abbrev held : Account
held = record (named_account (codes "a.json") (pos 0) 0) {
  guard = record { blocked = true; reason = codes "additional_budget_exceeded"; reset_at = 50 };
}

abbrev answer : Quota
answer = record {
  stale = false;
  admission = some (record { state = codes "allow"; reset_time = 90 ∷ [] });
  retry_after_seconds = 0;
  observed_at = 0;
  report = [];
}

quota_commit-Lifts_example :
    (quota_commit first_byte held 1 60 answer false).0.guard.blocked ≡ false
unfolding parse_reset
quota_commit-Lifts_example = (quota_commit-Lifts first_byte held 1 60 answer false refl).1 (
  refl,
  refl,
  refl,
  refl,
  (
    record { state = codes "allow"; reset_time = 90 ∷ [] },
    refl,
    record {
      allows = refl;
      dated = omega arith;
      reached = omega arith;
      renewed = omega arith;
      ahead = omega arith;
    },
  ),
)

quota_commit_holds_example :
    ((quota_commit first_byte held 1 40 answer false).0.guard.blocked ≡ true)
    × ((quota_commit first_byte held 1 40 answer false).0.guard.reset_at ≡ 50)
quota_commit_holds_example = quota_commit_holds first_byte held 1 40 answer false refl (omega arith)

abbrev lifted : AccountState
lifted = record {
  identity = codes "a.json";
  guard = record { blocked = false; reason = []; reset_at = 0 };
  quota = record answer { observed_at = 60 };
}
