-- ===== src/App/Gate/Wakeup.antt =====
-- internal/app/security.go: the wakeups of requests that wait in `acquire`.
use cpa_github_copilot.Common.{ℕ, ◌≤◌, ◌≡◌, false, some, arith, sum}
use cpa_github_copilot.App.Gate.{
  System, Step, acquires, resizes, Reach, here, next, acquire, admits, resize_at, initial,
}
use cpa_github_copilot.App.Gate.Bounds.{Reach-Inv, initial-Inv}

-- While `changed` stays what it was, nothing is given back; and it never goes down.
record Grows (s t : System) : Type 0 where
  later : s.gate.changed ≤ t.gate.changed
  grows : s.gate.changed ≡ t.gate.changed → s.gate.used ≤ t.gate.used
  fixed : s.gate.capacity ≡ t.gate.capacity

Step-Grows : {limit : ℕ} {s t : System} → Step limit s t → Grows s t
unfolding acquire resize_at
Step-Grows (acquires s g weight granted h e) = ground arith
Step-Grows (resizes s i weight) = ground arith

Grows-trans : {s t u : System} → Grows s t → Grows t u → Grows s u
Grows-trans p q = ground arith

Reach-Grows : {limit : ℕ} {s t : System} → Reach limit s t → Grows s t
Reach-Grows here = omega arith
Reach-Grows (next r st) = Grows-trans (Reach-Grows r) (Step-Grows st)

-- No wakeup is lost: a request that was refused, and that waits for `changed` to be closed, would
-- still be refused at any later moment before it is closed.
pub no_lost_wakeup :
    (limit weight : ℕ) (s t : System)
    → admits s.gate weight ≡ false
    → Reach limit s t
    → s.gate.changed ≡ t.gate.changed
    → admits t.gate weight ≡ false
unfolding admits
no_lost_wakeup limit weight s t refused r same = ground (arith, Reach-Grows r)

-- Once every lease of a gate is released, whatever requests and resizes went before, a request of
-- any weight is admitted, and all that is then in use is its weight.
drained_admits :
    (limit capacity weight : ℕ) (s : System)
    → Reach limit (initial capacity) s
    → sum s.leases ≡ 0
    → acquire s.gate weight ≡ some (record s.gate { used = weight }, weight)
unfolding acquire
drained_admits limit capacity weight s r empty =
    ground (arith, Reach-Inv (initial-Inv limit capacity) r)
