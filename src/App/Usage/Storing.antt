-- ===== src/App/Usage/Storing.antt =====
-- internal/app/server.go: what flushUsage leaves on the disk.
use cpa_github_copilot.Common.{
  ◌≡◌, refl, sym, subst, ◌⊎◌, inl, inr, true, false, Option, none, some, List, [], ◌∷◌, arith,
  Bool-cases,
}
use cpa_github_copilot.App.Usage.{
  Usage, Ledger, record_usage, flush_start, flush_finish, Event, completes, logs_event,
  starts_flush, ends_flush, Running, happens, runs,
}

-- Counters that are not marked dirty are stored, or are just being written.
abbrev pub InStep : Ledger → Option Usage → Type 0
InStep l none = l.usage_dirty ≡ false → l.stored ≡ l.usage
InStep l (some u) = l.usage_dirty ≡ false → u ≡ l.usage

abbrev pub Synced : Running → Type 0
Synced s = InStep s.ledger s.pending

flush_start-cases :
    (l : Ledger)
    → (flush_start l ≡ (record l { usage_dirty = false }, some l.usage))
      ⊎ ((l.usage_dirty ≡ false) × (flush_start l ≡ (l, none)))
unfolding flush_start
flush_start-cases l = elim (Bool-cases l.usage_dirty) [
  | inl d ↦ inl (ground (arith, d))
  | inr d ↦ inr (d, ground (arith, d))
]

happens-InStep :
    (l : Ledger) (p : Option Usage) (e : Event)
    → InStep l p
    → Synced (happens (record { ledger = l; pending = p }) e)
unfolding happens record_usage flush_start flush_finish
happens-InStep l none (completes now r) h = λ d. absurd (ground (arith, d))
happens-InStep l (some u) (completes now r) h = λ d. absurd (ground (arith, d))
happens-InStep l none (logs_event log) h = h
happens-InStep l (some u) (logs_event log) h = h
happens-InStep l none starts_flush h = elim (flush_start-cases l) [
  | inl written ↦ subst (λ r. InStep r.0 r.1) (sym written) (λ d. refl)
  | inr (clean, idle) ↦ subst (λ r. InStep r.0 r.1) (sym idle) h
]
happens-InStep l (some u) starts_flush h = h
happens-InStep l none (ends_flush ok) h = h
happens-InStep l (some u) (ends_flush true) h = h
happens-InStep l (some u) (ends_flush false) h = λ d. absurd (ground (arith, d))

runs-Synced : (s : Running) (events : List Event) → Synced s → Synced (runs s events)
runs-Synced s [] h = h
runs-Synced s (e ∷ events) h =
    runs-Synced (happens s e) events (happens-InStep s.ledger s.pending e h)

stored_lem :
    (l : Ledger) (p : Option Usage)
    → p ≡ none
    → InStep l p
    → (happens
        (happens (record { ledger = l; pending = p }) starts_flush)
        (ends_flush true)).ledger.stored
      ≡ l.usage
unfolding happens flush_finish
stored_lem l none e h = elim (flush_start-cases l) [
  | inl written ↦ rw written refl
  | inr (clean, idle) ↦ rw idle (h clean)
]
stored_lem l (some u) e h = absurd (ground (arith, e))

-- No request is lost by the way the counters are stored: if they were stored or marked at first, then
-- after whatever requests, flushes and failed writes, with none in progress, a flush whose write
-- succeeds leaves exactly the current counters on the disk.
pub flush_stores_all :
    (s : Running) (events : List Event)
    → Synced s
    → (runs s events).pending ≡ none
    → let after = runs s events in
      (happens (happens after starts_flush) (ends_flush true)).ledger.stored ≡ after.ledger.usage
flush_stores_all s events h none_pending =
    let after = runs s events in
    stored_lem after.ledger after.pending none_pending (runs-Synced s events h)
