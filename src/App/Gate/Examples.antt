-- ===== src/App/Gate/Examples.antt =====
-- Runs of the memory gate, and its theorems at concrete inputs.
use cpa_github_copilot.Common.{◌≤◌, ◌≡◌, refl, false, some, [], ◌∷◌, arith, sum}
use cpa_github_copilot.App.Gate.{
  System, bytes, Reach, here, next, acquires, acquire, admits, initial, request_memory_budget,
  max_inference_body, min_inference_weight, admission_weight, body_weight,
}
use cpa_github_copilot.App.Gate.Bounds.{used_within_budget, admission_weight_bounds}
use cpa_github_copilot.App.Gate.Wakeup.{no_lost_wakeup}

-- A gate of 16 MiB (a limit of 64 MiB), after one request of 10 MiB.
abbrev busy : System
busy = record {
  gate = record { capacity = 16777216; used = 10485760; changed = 0 };
  leases = 10485760 ∷ [];
}

busy_reached : Reach max_inference_body (initial (request_memory_budget (bytes 67108864))) busy
unfolding initial request_memory_budget acquire
busy_reached = next here (acquires _ _ 10485760 10485760 refl refl)

used_within_budget_example : (busy.gate.used ≡ sum busy.leases) × (busy.gate.used ≤ 16777216)
unfolding request_memory_budget
used_within_budget_example = used_within_budget (bytes 67108864) busy busy_reached

admission_weight_bounds_example :
    (min_inference_weight ≤ 65536) × (65536 ≤ max_inference_body) × (body_weight 90 ≤ 65536)
unfolding admission_weight
admission_weight_bounds_example = admission_weight_bounds (some 100) 90 65536 refl (omega arith)

-- A second request of 10 MiB waits; a third one of 1 MiB is let in and changes nothing for it.
no_lost_wakeup_example : admits (record busy.gate { used = 11534336 }) 10485760 ≡ false
unfolding admits acquire
no_lost_wakeup_example =
    no_lost_wakeup max_inference_body 10485760 busy
      (record { gate = record busy.gate { used = 11534336 }; leases = 1048576 ∷ 10485760 ∷ [] })
      refl (next here (acquires _ _ 1048576 1048576 refl refl)) refl

abbrev drained : System
drained = record { gate = record { capacity = 16777216; used = 0; changed = 1 }; leases = 0 ∷ [] }
