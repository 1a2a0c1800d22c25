-- ===== src/App/Flights/Examples.antt =====
-- A run of two goroutines on one account, and the theorem at it.
use cpa_github_copilot.Common.{◌≤◌, refl, true, false, none, [], ◌∷◌, pos, codes}
use cpa_github_copilot.App.Account.Sample.{named_account}
use cpa_github_copilot.App.Quota.{TimeParser, quota_start}
use cpa_github_copilot.App.Flights.{
  outside, quota_request, refresh_request, Goroutines, quota_starts, refresh_starts, moves, Reach,
  here, next, refresh_start,
}
use cpa_github_copilot.App.Flights.Single.{Quiet, count, in_quota, single_flight}

abbrev no_times : TimeParser
no_times = record { rfc3339 = λ _. none; date = λ _. none }

abbrev start : Goroutines
start = record {
  account = named_account (codes "a.json") (pos 0) 0;
  phases = outside ∷ outside ∷ [];
}

start-Quiet : Quiet start
start-Quiet = record { no_quota = refl; no_refresh = refl; quota_free = refl; refresh_free = refl }

abbrev both : Goroutines
both = record {
  account = record (start.account) { quota_flight = true; refresh_flight = true };
  phases = quota_request 1 ∷ refresh_request 1 ∷ [];
}

both_reached : Reach no_times 0 start both
unfolding quota_start refresh_start
both_reached =
    next (next here (moves start 0 outside (quota_request 1) _ refl (quota_starts _ _ 10 refl)))
      (moves _ 1 outside (refresh_request 1) _ refl (refresh_starts _ _ false 10 refl))

single_flight_example : count in_quota both.phases ≤ 1
single_flight_example = (single_flight no_times 0 start both start-Quiet both_reached).0
