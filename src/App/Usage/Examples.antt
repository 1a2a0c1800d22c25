-- ===== src/App/Usage/Examples.antt =====
-- Runs of the counters, and their theorems at concrete inputs.
use cpa_github_copilot.Common.{◌≡◌, refl, true, false, none, List, [], ◌∷◌, codes, arith}
use cpa_github_copilot.App.Usage.{
  Report, add_usage, Event, completes, starts_flush, ends_flush, Running, runs, happens,
}
use cpa_github_copilot.App.Usage.Counting.{
  keep_last, logged, reports, IsTotal, IsWords, ledger_refines,
}
use cpa_github_copilot.App.Usage.Storing.{flush_stores_all}

fresh : Running
fresh = record {
  ledger = record {
    usage = record { requests = 0; errors = 0; input = 0; output = 0 };
    usage_dirty = false;
    logs = [];
    stored = record { requests = 0; errors = 0; input = 0; output = 0 };
  };
  pending = none;
}

failure : Report
failure = record {
  id = codes "a";
  model = codes "m";
  status = 502;
  start = 0;
  input = 3;
  output = 1;
}

-- A request between the two sections of a flush whose write fails.
history : List Event
unfolding failure
history = completes 5 failure ∷ starts_flush ∷ completes 7 failure ∷ ends_flush false ∷ []

fresh-IsWords : IsWords fresh.ledger.usage
unfolding fresh
fresh-IsWords = record {
  requests = omega arith;
  errors = omega arith;
  input = omega arith;
  output = omega arith;
}

two_failures :
    (runs fresh history).ledger.usage ≡ record { requests = 2; errors = 2; input = 6; output = 2 }
unfolding fresh history happens add_usage
two_failures = refl

ledger_refines_example :
    IsTotal fresh.ledger.usage (runs fresh history).ledger.usage (reports history)
    × ((runs fresh history).ledger.logs ≡ keep_last (logged [] history))
unfolding fresh
ledger_refines_example = ledger_refines fresh [] history fresh-IsWords refl

flush_stores_all_example :
    (happens (happens (runs fresh history) starts_flush) (ends_flush true)).ledger.stored
    ≡ (runs fresh history).ledger.usage
unfolding fresh history happens
flush_stores_all_example = flush_stores_all fresh history (λ d. refl) refl
