-- ===== src/Copilot/QuotaAnswer/Examples.antt =====
-- An answer with a spent budget.
use cpa_github_copilot.Common.{
  ℕ, ◌+◌, ◌*◌, ◌≡◌, refl, Bool, true, false, Option, none, some, List, [], ◌∷◌, arith, Bytes, codes,
  pos, if◌then◌else◌, Bytes_eq, Eq, ◌==◌,
}
use cpa_github_copilot.Common.Json.{string, end, field}
use cpa_github_copilot.App.Account.{Account}
use cpa_github_copilot.App.Account.Sample.{named_account}
use cpa_github_copilot.App.Candidates.{is_available}
use cpa_github_copilot.App.Quota.{TimeParser, quota_commit, is_current}
use cpa_github_copilot.Copilot.QuotaAnswer.{QuotaReader, parse_quota, quota_plan, read_quota_answer}
use cpa_github_copilot.Copilot.QuotaAnswer.Budget.{spent_budget_excludes}

no_times : TimeParser
no_times = record { rfc3339 = λ s. none; date = λ s. none }

-- 995 of a budget of 1000.
reader : QuotaReader
unfolding no_times
reader = record {
  number = λ o key. some (record {
    numerator = if key == codes "overage_count" then 995 else 1000;
    denominator_pred = 0;
  });
  times = no_times;
  format_rfc3339 = λ t. codes "t";
  atoi = λ s. some (pos 7);
  parse_http_time = λ s. none;
  report = λ o. [];
}

account : Account
account = named_account (codes "a") (pos 0) 0

student :
    quota_plan (field (codes "access_type_sku") (string (codes "free_educational_quota")) end)
    ≡ codes "Copilot Student"
unfolding quota_plan cpa_github_copilot.Common.bytes_eq
    cpa_github_copilot.Copilot.Terminal.string_value cpa_github_copilot.Copilot.Terminal.get
student = refl

failed_request : read_quota_answer reader 3 500 [] none ≡ none
unfolding read_quota_answer
failed_request = refl

spent_budget_excludes_example :
    is_available 9 (quota_commit no_times account 1 5 (parse_quota reader end) false).0 ≡ false
unfolding reader cpa_github_copilot.Common.bytes_eq is_current account
spent_budget_excludes_example =
    spent_budget_excludes reader end (record { numerator = 995; denominator_pred = 0 })
      (record { numerator = 1000; denominator_pred = 0 }) no_times account 1 5 9 refl refl
      (omega arith) (omega arith) refl
