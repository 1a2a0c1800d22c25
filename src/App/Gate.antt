-- ===== src/App/Gate.antt =====
-- internal/app/security.go: `memoryGate`, which bounds the request bodies in progress, and the
-- weights that `inference` (internal/app/server.go) asks for. The channel `changed` is a number
-- that goes up when the channel is closed and replaced. Weights are not negative, and a sum stays
-- far below the range of int64 (2^30 + 2^24), so it is not wrapped.
mod Bounds
mod Wakeup
mod Examples
use cpa_github_copilot.Common.{
  ℕ, zero, suc, ◌+◌, ◌-◌, ◌*◌, ◌/◌, ◌^◌, min, max, ◌≡◌, Bool, true, ◌||◌, Option, none, some, List,
  [], ◌∷◌, nat_eq, leb, get_elem?, set, if◌then◌else◌,
}

abbrev pub max_inference_body : ℕ
max_inference_body = 16777216

abbrev pub min_inference_weight : ℕ
min_inference_weight = 65536

pub record MemoryGate : Type 0 where
  pub capacity : ℕ
  pub used : ℕ
  pub changed : ℕ

pub new_memory_gate : ℕ → MemoryGate
new_memory_gate capacity = record { capacity = capacity; used = 0; changed = 0 }

pub data MemoryLimit : Type 0 where
  unset : MemoryLimit  -- not positive, or math.MaxInt64
  bytes : ℕ → MemoryLimit

pub request_memory_budget : MemoryLimit → ℕ
request_memory_budget unset = 268435456
request_memory_budget (bytes limit) = min (max (limit / 16) max_inference_body) 1073741824

-- The test of `acquire` under the lock.
pub admits : MemoryGate → ℕ → Bool
admits g weight = nat_eq g.used 0 || leb (g.used + weight) g.capacity

-- One turn of the loop of `acquire`: the gate and the lease's weight, or `none` where it waits.
pub acquire : MemoryGate → ℕ → Option (MemoryGate × ℕ)
unfolding admits
acquire g weight =
    if admits g weight then some (record g { used = g.used + weight }, weight) else none

-- The gate and the lease's weight after `resize`.
pub resize : MemoryGate → ℕ → ℕ → MemoryGate × ℕ
resize g old weight =
    if leb old weight
    then (g, old)
    else (record g { used = g.used - (old - weight); changed = suc g.changed }, weight)

pub release : MemoryGate → ℕ → MemoryGate × ℕ
unfolding resize
release g old = resize g old 0

-- The weight that `inference` acquires for a Content-Length, `none` where it is not known, and the
-- weight after the body is read. A larger Content-Length or body is refused (413).
pub admission_weight : Option ℕ → Option ℕ
admission_weight none = some max_inference_body
admission_weight (some n) =
    if leb n max_inference_body then some (max n min_inference_weight) else none

pub body_weight : ℕ → ℕ
body_weight size = max size min_inference_weight

-- The gate and the weights of the leases that it gave out.
pub record System : Type 0 where
  pub gate : MemoryGate
  pub leases : List ℕ

-- `resize` through the lease at one place of the list.
pub resize_at : ℕ → ℕ → System → System
unfolding resize
resize_at i weight s = elim (get_elem? s.leases i) [
  | none ↦ s
  | some old ↦
      let (g, kept) = resize s.gate old weight in
      record s { gate = g; leases = set s.leases i kept }
]

-- A request with a weight of at most `limit` is admitted, or a lease is resized (released, at 0).
pub data Step (limit : ℕ) : System → System → Type 0 where
  acquires :
      (s : System) (g : MemoryGate) (weight granted : ℕ)
      → leb weight limit ≡ true
      → acquire s.gate weight ≡ some (g, granted)
      → Step limit s (record { gate = g; leases = granted ∷ s.leases })
  resizes : (s : System) (i weight : ℕ) → Step limit s (resize_at i weight s)

pub data Reach (limit : ℕ) (s : System) : System → Type 0 where
  here : Reach limit s s
  next : {t u : System} → Reach limit s t → Step limit t u → Reach limit s u

pub initial : ℕ → System
unfolding new_memory_gate
initial capacity = record { gate = new_memory_gate capacity; leases = [] }
