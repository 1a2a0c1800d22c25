-- ===== src/Copilot/Forward/Translated.antt =====
-- internal/copilot/stream.go: forwardTranslatedStream into a Responses stream.
use cpa_github_copilot.Common.{
  ℕ, ◌≡◌, refl, subst, inl, inr, Bool, true, false, not, ◌||◌, Option, none, some, List, [], ◌∷◌,
  arith, if◌then◌else◌, ltb, length, is_some, Bool-cases, Option-cases, Bytes, Bytes_eq, ◌==◌,
}
use cpa_github_copilot.Common.Json.{Json, Fields}
use cpa_github_copilot.Copilot.Terminal.{
  Protocol, responses, Terminal, new_tracker, observe, observe_source, source_terminal_priority,
  missing_terminal, allows_source_translation, source_frame_terminal_status, translated_frame,
}
use cpa_github_copilot.Copilot.Forward.{
  ForwardError, Read, Pump, Next, go_on, finished, broke, returned, emit, emit_output, emit_outputs,
  is_failure, then_terminal, translate_frame, translated_emit_frame, normalize_sse_frame, new_pump,
  validate_termination, forward_translated_stream, source_protocol_terminal,
}
use cpa_github_copilot.Copilot.Forward.Rule.{Good, Fine, forward-Fine}
use cpa_github_copilot.Copilot.Forward.Passed.{Delivered, Tracked, sending-Tracked}

module _ {ℓ} {S : Type ℓ} (json_valid : Bytes → Bool) (unmarshal : Bytes → Option Fields)
    (marshal : Json → Option Bytes) (type_of : Bytes → Option Bytes) (accepts : ℕ → Bytes → Bool)
    (normalize : S → Bytes → Bytes × S) (translate : S → Bytes → List Bytes × S) where
  -- The invariant of the loop, of the payloads as the translator made them.
  abbrev pub Kept : Pump S → Type 0
  Kept p = Tracked type_of (λ o. o) p

  -- A frame keeps the invariant unless it ends the loop by an error.
  abbrev Keeps : Pump S × Next → Type 0
  Keeps (p, go_on) = Kept p
  Keeps (p, finished) = Kept p
  Keeps (p, broke e) = Unit

  emit-Keeps :
      (p : Pump S) (output : Bytes)
      → Kept p
      → Keeps (emit accepts (record p { tracker = observe type_of p.tracker output }) output go_on)
  unfolding emit
  emit-Keeps p output h = elim (Bool-cases (accepts (length p.sent) output)) [
    | inl a ↦ rw (emit, a) (sending-Tracked type_of (λ o. o) p output h)
    | inr a ↦ rw (emit, a) tt
  ]

  emit_output-Keeps :
      (p : Pump S) (o : Bytes)
      → Kept p
      → Keeps (emit_output json_valid unmarshal marshal type_of accepts normalize translate p o)
  unfolding emit_output
  emit_output-Keeps p o h = elim (Bool-cases (o == [])) [
    | inl e ↦ rw (emit_output, e) h
    | inr e ↦ elim (Option-cases (translated_frame unmarshal marshal type_of p.tracker o)) [
      | inl n ↦ rw (emit_output, e, n) h
      | inr (output, n) ↦ rw (emit_output, e, n) (emit-Keeps p output h)
    ]
  ]

  resume_outputs :
      (r : Pump S × Next) (os : List Bytes)
      → Keeps r
      → ((q : Pump S)
          → Kept q
          → Keeps
              (emit_outputs json_valid unmarshal marshal type_of accepts normalize translate q os))
      → Keeps (elim r.1 as (λ _. Pump S × Next) [
        | go_on ↦
            emit_outputs json_valid unmarshal marshal type_of accepts normalize translate r.0 os
        | finished ↦ (r.0, finished)
        | broke e ↦ (r.0, broke e)
      ])
  resume_outputs (q, go_on) os h next = next q h
  resume_outputs (q, finished) os h next = h
  resume_outputs (q, broke e) os h next = tt

  emit_outputs-Keeps :
      (p : Pump S) (os : List Bytes)
      → Kept p
      → Keeps (emit_outputs json_valid unmarshal marshal type_of accepts normalize translate p os)
  unfolding emit_outputs
  emit_outputs-Keeps p [] h = h
  emit_outputs-Keeps p (o ∷ os) h =
      resume_outputs
        (emit_output json_valid unmarshal marshal type_of accepts normalize translate p o) os
        (emit_output-Keeps p o h) (λ q. emit_outputs-Keeps q os)

  then_terminal-Keeps : (b : Bool) (r : Pump S × Next) → Keeps r → Keeps (then_terminal b r)
  unfolding then_terminal
  then_terminal-Keeps true (q, go_on) h = h
  then_terminal-Keeps true (q, finished) h = h
  then_terminal-Keeps false (q, go_on) h = h
  then_terminal-Keeps false (q, finished) h = h
  then_terminal-Keeps b (q, broke e) h = tt

  next-Keeps : (b : Bool) (p : Pump S) → Kept p → Keeps (p, if b then finished else go_on)
  next-Keeps true p h = h
  next-Keeps false p h = h

  translate_frame-Keeps :
      (b : Bool) (p : Pump S) (frame : Bytes)
      → Kept p
      → Keeps (
          translate_frame json_valid unmarshal marshal type_of accepts normalize translate b p
            frame)
  unfolding translate_frame
  translate_frame-Keeps b p frame h =
      let (os, state') = translate p.state frame in
      elim (Bool-cases (not (allows_source_translation p.tracker frame))) [
        | inl e ↦ rw (translate_frame, e) (next-Keeps b p h)
        | inr e ↦
            rw (translate_frame, e)
              (then_terminal-Keeps b
                (emit_outputs json_valid unmarshal marshal type_of accepts normalize translate
                  (record p { state = state' }) os)
                (emit_outputs-Keeps (record p { state = state' }) os h))
      ]

  required :
      (requires : Bool) (q : Pump S) (status : Terminal)
      → Kept q
      → Kept (if requires then record q { source_terminal = some status } else q)
  required true q status h = h
  required false q status h = h

  observe_source-Tracked :
      (p : Pump S) (source : Terminal × Bytes)
      → Kept p
      → Kept (record p { tracker = observe_source p.tracker source })
  unfolding observe_source
  observe_source-Tracked p (status, reason) (active, seen) =
      elim (Bool-cases (
        not p.tracker.active
        || not (
            ltb (source_terminal_priority p.tracker.source_status)
              (source_terminal_priority (some status))))) [
                | inl e ↦ rw (observe_source, e) (active, seen)
                | inr e ↦ rw (observe_source, e) (active, seen)
              ]

  translated_emit_frame-Keeps :
      (source : Protocol) (requires : Bool) (p : Pump S) (raw : Bytes)
      → Kept p
      → Keeps (
          translated_emit_frame json_valid unmarshal marshal type_of accepts normalize translate
            source requires p raw)
  unfolding translated_emit_frame
  translated_emit_frame-Keeps source requires p raw h =
      let (frame, state') = normalize p.state (normalize_sse_frame json_valid raw) in
      let p' : Pump S = record p { state = state' } in
      let terminal = source_protocol_terminal type_of frame source in
      elim (Bool-cases (frame == [])) [
        | inl e ↦ rw (translated_emit_frame, e) h
        | inr e ↦
            elim (Option-cases
              (source_frame_terminal_status unmarshal marshal type_of frame source)) [
                | inl n ↦
                    rw (translated_emit_frame, e, n) (translate_frame-Keeps terminal p' frame h)
                | inr (found, n) ↦
                    let q : Pump S = record p' { tracker = observe_source p.tracker found } in
                    let k : Kept q = observe_source-Tracked p' found h in
                    elim (Bool-cases (is_failure found.0)) [
                      | inl f ↦ rw (translated_emit_frame, e, n, f) tt
                      | inr f ↦
                          rw (translated_emit_frame, e, n, f)
                            (translate_frame-Keeps terminal
                              (if requires then record q { source_terminal = some found.0 } else q)
                              frame (required requires q found.0 k))
                    ]
              ]
      ]

  Keeps-Good :
      (on_done : Pump S → Option ForwardError) (emit_frame : Pump S → Bytes → Pump S × Next)
      (Goal : Pump S → Type 0) (r : Pump S × Next)
      → Keeps r
      → Good json_valid emit_frame on_done on_done Kept Kept Goal r
  Keeps-Good on_done emit_frame Goal (q, go_on) h = h
  Keeps-Good on_done emit_frame Goal (q, finished) h = h
  Keeps-Good on_done emit_frame Goal (q, broke e) h = tt

  -- What a translated stream has done when it ends without an error.
  abbrev pub Terminated : Bool → Pump S → Type 0
  Terminated requires p =
      Delivered type_of (λ o. o) p × (requires ≡ true → is_some p.source_terminal ≡ true)

  validated :
      (requires : Bool) (p : Pump S)
      → Kept p
      → validate_termination requires p ≡ none
      → Terminated requires p
  unfolding validate_termination missing_terminal
  validated requires p (active, seen) e =
      (seen (ground (arith, active, e)), λ r. ground (arith, r, e))

  -- A stream translated into Responses that ends without an error has sent a terminal event
  -- downstream, and, where the upstream speaks Responses, has seen a terminal event of the upstream.
  pub translated_stream_terminates :
      (source : Protocol) (requires : Bool) (max_buffer : ℕ) (state : S) (reads : List Read)
      (p : Pump S)
      → forward_translated_stream json_valid unmarshal marshal type_of accepts normalize translate
          source responses requires max_buffer state reads
        ≡ (p, returned none)
      → Terminated requires p
  unfolding forward_translated_stream new_pump new_tracker
  translated_stream_terminates source requires max_buffer state reads p h =
      let emit_frame =
        translated_emit_frame json_valid unmarshal marshal type_of accepts normalize translate
          source requires in
      let check = validate_termination requires in
      subst (Fine json_valid emit_frame check check Kept Kept (Terminated requires)) h (
        forward-Fine json_valid emit_frame check check Kept Kept (Terminated requires)
          (λ q raw k.
            Keeps-Good check emit_frame (Terminated requires) (emit_frame q raw)
              (translated_emit_frame-Keeps source requires q raw k))
          (λ q f k. k) (validated requires, validated requires)
          (new_pump responses max_buffer state) reads (refl, λ k. absurd (ground (arith, k))))
