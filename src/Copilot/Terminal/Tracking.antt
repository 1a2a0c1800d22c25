-- ===== src/Copilot/Terminal/Tracking.antt =====
-- internal/copilot/stream.go: what the tracker of terminal events holds of the source.
use cpa_github_copilot.Common.{
  ℕ, ◌≤◌, ◌≡◌, refl, ◌⊎◌, inl, inr, true, none, some, List, [], ◌∷◌, arith, ltb, All, Bool-cases,
  Bytes,
}
use cpa_github_copilot.Copilot.Terminal.{
  Terminal, completed, incomplete, failed, error_event, Tracker, source_terminal_priority,
  observe_source,
}

-- The source events that the tracker is told of, one after the other.
abbrev pub observe_sources : Tracker → List (Terminal × Bytes) → Tracker
observe_sources t [] = t
observe_sources t (s ∷ sources) = observe_sources (observe_source t s) sources

-- How severe a status is: a completion, a truncation, a failure.
abbrev pub severity : Terminal → ℕ
severity completed = 0
severity incomplete = 1
severity failed = 2
severity error_event = 2

-- One of the events.
abbrev pub In : Terminal × Bytes → List (Terminal × Bytes) → Type 0
In s [] = ⊥
In s (r ∷ sources) = (r ≡ s) ⊎ In s sources

priority-severity :
    (a b : Terminal)
    → source_terminal_priority (some a) ≤ source_terminal_priority (some b)
    → severity a ≤ severity b
unfolding source_terminal_priority
priority-severity completed b h = omega arith
priority-severity incomplete completed h = absurd (ground (arith, h))
priority-severity incomplete incomplete h = omega arith
priority-severity incomplete failed h = omega arith
priority-severity incomplete error_event h = omega arith
priority-severity failed completed h = absurd (ground (arith, h))
priority-severity failed incomplete h = absurd (ground (arith, h))
priority-severity failed failed h = omega arith
priority-severity failed error_event h = omega arith
priority-severity error_event completed h = absurd (ground (arith, h))
priority-severity error_event incomplete h = absurd (ground (arith, h))
priority-severity error_event failed h = omega arith
priority-severity error_event error_event h = omega arith

-- The tracker holds the status and the reason of an event.
abbrev pub Holds : Tracker → Terminal × Bytes → Type 0
Holds t (status, reason) = (t.source_status ≡ some status) × (t.source_reason ≡ reason)

-- What the tracker holds after an event, where it held another before.
observe_source-Holds :
    (t : Tracker) (held s : Terminal × Bytes)
    → t.active ≡ true
    → Holds t held
    → ((observe_source t s).active ≡ true)
      × (((Holds (observe_source t s) s) × (severity held.0 ≤ severity s.0))
          ⊎ ((Holds (observe_source t s) held) × (severity s.0 ≤ severity held.0)))
unfolding observe_source
observe_source-Holds t (old, why) (status, reason) active (holds, because) =
    elim (Bool-cases
      (ltb (source_terminal_priority (some old)) (source_terminal_priority (some status)))) [
        | inl e ↦
            rw (active, holds, e)
              (refl, inl ((refl, refl), priority-severity old status (ground (arith, e))))
        | inr e ↦
            rw (active, holds, e)
              (refl, inr ((refl, because), priority-severity status old (ground (arith, e))))
      ]

observe_source-first :
    (t : Tracker) (first : Terminal × Bytes)
    → t.active ≡ true
    → t.source_status ≡ none
    → ((observe_source t first).active ≡ true) × Holds (observe_source t first) first
unfolding observe_source source_terminal_priority
observe_source-first t (completed, reason) active empty = rw (active, empty) (refl, (refl, refl))
observe_source-first t (incomplete, reason) active empty = rw (active, empty) (refl, (refl, refl))
observe_source-first t (failed, reason) active empty = rw (active, empty) (refl, (refl, refl))
observe_source-first t (error_event, reason) active empty = rw (active, empty) (refl, (refl, refl))

skip :
    (held s last : Terminal × Bytes) (sources : List (Terminal × Bytes))
    → In last (held ∷ sources)
    → In last (held ∷ s ∷ sources)
skip held s last sources (inl e) = inl e
skip held s last sources (inr found) = inr (inr found)

-- Where an event is held, one of it and those that follow is held in the end, which is as severe
-- as each of them.
observe_sources-Holds :
    (t : Tracker) (held : Terminal × Bytes) (sources : List (Terminal × Bytes))
    → t.active ≡ true
    → Holds t held
    → (last : Terminal × Bytes) × In last (held ∷ sources)
      × Holds (observe_sources t sources) last
      × All (λ s. severity s.0 ≤ severity last.0) (held ∷ sources)
observe_sources-Holds t held [] active holds = (held, inl refl, holds, (omega arith, tt))
observe_sources-Holds t held (s ∷ sources) active holds =
    let (active', step) = observe_source-Holds t held s active holds in
    elim step [
      | inl (new, grows) ↦
          let (last, found, h, all) =
            observe_sources-Holds (observe_source t s) s sources active' new in
          (last, inr found, h, (omega (arith, grows, all.0), all))
      | inr (same, less) ↦
          let (last, found, h, all) =
            observe_sources-Holds (observe_source t s) held sources active' same in
          (last, skip held s last sources found, h, (all.0, (omega (arith, less, all.0), all.1)))
    ]

-- A late error is never masked by a completion: what an active tracker without a status holds after
-- events of the source (their number not 0), status and reason, is one of these events, and it is at
-- least as severe as each of them, where a truncation is more severe than a completion, and a failure
-- or an error than both.
pub observe_sources-severe :
    (t : Tracker) (first : Terminal × Bytes) (sources : List (Terminal × Bytes))
    → t.active ≡ true
    → t.source_status ≡ none
    → (last : Terminal × Bytes) × In last (first ∷ sources)
      × Holds (observe_sources t (first ∷ sources)) last
      × All (λ s. severity s.0 ≤ severity last.0) (first ∷ sources)
observe_sources-severe t first sources active empty =
    observe_sources-Holds (observe_source t first) first sources
      (observe_source-first t first active empty).0 (observe_source-first t first active empty).1
