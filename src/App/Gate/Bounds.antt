-- ===== src/App/Gate/Bounds.antt =====
-- internal/app/security.go: how much the gate has given out.
use cpa_github_copilot.Common.{
  ℕ, ◌≤◌, max, ◌≡◌, inl, inr, Option, none, some, arith, get_elem?, sum, sum-set, get_elem?-le-sum,
  Option-cases,
}
use cpa_github_copilot.App.Gate.{
  MemoryLimit, unset, bytes, System, Step, acquires, resizes, Reach, here, next, acquire, resize_at,
  initial, request_memory_budget, max_inference_body, min_inference_weight, admission_weight,
  body_weight,
}

-- `used` is what the leases hold, and what they hold fits, but for a lease that was let in alone.
pub record Inv (limit capacity : ℕ) (s : System) : Type 0 where
  pub exact : s.gate.used ≡ sum s.leases
  pub bounded : s.gate.used ≤ max capacity limit
  pub fixed : s.gate.capacity ≡ capacity

pub initial-Inv : (limit capacity : ℕ) → Inv limit capacity (initial capacity)
unfolding initial
initial-Inv limit capacity = omega arith

resize_at-Inv :
    {limit capacity : ℕ} (s : System) (i weight : ℕ)
    → Inv limit capacity s
    → Inv limit capacity (resize_at i weight s)
unfolding resize_at
resize_at-Inv s i weight v = elim (Option-cases (get_elem? s.leases i)) [
  | inl absent ↦ ground arith
  | inr (old, found) ↦ ground (
    arith,
    sum-set s.leases i weight old found,
    sum-set s.leases i old old found,
    get_elem?-le-sum s.leases i old found,
  )
]

Step-Inv :
    {limit capacity : ℕ} {s t : System}
    → Inv limit capacity s
    → Step limit s t
    → Inv limit capacity t
unfolding acquire
Step-Inv v (acquires s g weight granted h e) = ground arith
Step-Inv v (resizes s i weight) = resize_at-Inv s i weight v

pub Reach-Inv :
    {limit capacity : ℕ} {s t : System}
    → Inv limit capacity s
    → Reach limit s t
    → Inv limit capacity t
Reach-Inv v here = v
Reach-Inv v (next r st) = Step-Inv (Reach-Inv v r) st

budget-ge : (limit : MemoryLimit) → max_inference_body ≤ request_memory_budget limit
unfolding request_memory_budget
budget-ge unset = omega arith
budget-ge (bytes n) = omega arith

-- From a gate with the server's budget, and with requests of at most 16 MiB, after any requests
-- and resizes: `used` is the sum of what the leases hold, and never exceeds the capacity. (So the
-- rule that an idle gate admits everything does not let a request pass the budget.)
pub used_within_budget :
    (limit : MemoryLimit) (s : System)
    → Reach max_inference_body (initial (request_memory_budget limit)) s
    → (s.gate.used ≡ sum s.leases) × (s.gate.used ≤ request_memory_budget limit)
used_within_budget limit s r = omega (
  arith,
  Reach-Inv (initial-Inv max_inference_body (request_memory_budget limit)) r,
  budget-ge limit,
)

abbrev pub Announced : Option ℕ → ℕ → Type 0
Announced none size = size ≤ max_inference_body
Announced (some n) size = size ≤ n

-- What `inference` asks for is such a weight: a Content-Length that is not refused, or is missing,
-- gives a weight of 64 KiB to 16 MiB, and a body that is not longer than was announced (at most
-- 16 MiB if nothing was) is never given more by the resize that follows.
pub admission_weight_bounds :
    (content_length : Option ℕ) (size weight : ℕ)
    → admission_weight content_length ≡ some weight
    → Announced content_length size
    → (min_inference_weight ≤ weight) × (weight ≤ max_inference_body) × (body_weight size ≤ weight)
unfolding admission_weight body_weight
admission_weight_bounds none size weight h a = ground arith
admission_weight_bounds (some n) size weight h a = ground arith
