-- ===== src/App/Failover/Examples.antt =====
-- Runs of the loop over the accounts, and its theorems at concrete inputs.
use cpa_github_copilot.Common.{
  ◌≡◌, refl, false, none, some, List, [], ◌∷◌, Bytes_eq, bytes_eq, codes, pos,
}
use cpa_github_copilot.App.Account.{Account}
use cpa_github_copilot.App.Account.Sample.{named_account}
use cpa_github_copilot.App.Failover.{
  status_of, Execution, fails, responds, Visit, is_blocked, retry_account, answered, try_accounts,
}
use cpa_github_copilot.App.Failover.Answers.{Decided, try_accounts-Decided}

first_account : Account
first_account = named_account (codes "a") (pos 0) 0

second_account : Account
second_account = named_account (codes "b") (pos 0) 0

visit : Account → Execution → Visit
visit a e = record {
  canceled = false;
  canceled_after_quota = false;
  after_quota = a;
  refresh_error = none;
  canceled_after_catalog = false;
  after_catalog = a;
  models = codes "m" ∷ [];
  execution = e;
}

visits : List Visit
unfolding visit first_account second_account
visits = visit first_account (fails (some 429)) ∷ visit second_account (responds (codes "{}")) ∷ []

-- The second account answers after the first one was rate-limited.
second_answers :
    (try_accounts 7 (codes "m") none visits).answer ≡ answered second_account (codes "{}")
unfolding try_accounts visits first_account second_account is_blocked bytes_eq retry_account
    status_of
second_answers = refl

try_accounts-Decided_example :
    Decided (codes "m") none visits (try_accounts 7 (codes "m") none visits)
try_accounts-Decided_example = try_accounts-Decided 7 (codes "m") none visits
