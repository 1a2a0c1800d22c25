-- ===== src/App/Account/Sample.antt =====
-- Accounts for the tests of internal/app.
use cpa_github_copilot.Common.{ℕ, ℤ, false, none, [], Bytes}
use cpa_github_copilot.App.Account.{Account, unset}

abbrev pub named_account : Bytes → ℤ → ℕ → Account
named_account id priority cooldown = record {
  id = id;
  auth = record {
    id = id;
    file_name = id;
    disabled = false;
    storage = none;
    next_refresh_after = 0;
  };
  raw = [];
  epoch = 1;
  deleted = false;
  disabled = false;
  priority = priority;
  proxy = [];
  identity = id;
  guard = record { blocked = false; reason = []; reset_at = 0 };
  quota = record {
    stale = false;
    admission = none;
    retry_after_seconds = 0;
    observed_at = 0;
    report = [];
  };
  next_quota = 0;
  time_refresh = 0;
  cooldown = cooldown;
  next_models = 0;
  cooldown_kind = unset;
  quota_flight = false;
  refresh_flight = false;
}
