-- ===== src/Copilot/Forward/Passed.antt =====
-- internal/copilot/stream.go: forwardStreamPassThrough of a Responses stream.
use cpa_github_copilot.Common.{
  ℕ, ◌≡◌, refl, subst, inl, inr, Bool, true, ◌||◌, Option, none, List, [], ◌∷◌, ◌++◌, arith, any,
  length, is_some, Bool-cases, Option-cases, Bytes, Bytes_eq, ◌==◌, eq_self,
}
use cpa_github_copilot.Common.Json.{Json, Fields}
use cpa_github_copilot.Copilot.Framer.{newline}
use cpa_github_copilot.Copilot.Terminal.{
  Protocol, responses, new_tracker, observe, missing_terminal, responses_frame_terminal_status,
}
use cpa_github_copilot.Copilot.Forward.{
  Read, Pump, Next, returned, emit, pass_frame, new_pump, done_error, forward_stream_pass_through,
  source_protocol_terminal,
}
use cpa_github_copilot.Copilot.Forward.Rule.{Good, Fine, forward-Fine}

any_last :
    (p : Bytes → Bool) (xs : List Bytes) (x : Bytes) → any p (xs ++ (x ∷ [])) ≡ (any p xs || p x)
any_last p [] x = ground arith
any_last p (y ∷ xs) x = ground (arith, any_last p xs x)

module _ {ℓ} {S : Type ℓ} (type_of : Bytes → Option Bytes) (wrap : Bytes → Bytes) where
  -- A frame with a terminal event went downstream.
  abbrev pub Delivered : Pump S → Type 0
  Delivered p =
      (frame : Bytes) × (is_some (responses_frame_terminal_status type_of frame) ≡ true)
      × (any (λ s. s == wrap frame) p.sent ≡ true)

  -- The tracker is active, and has seen no terminal event that was not sent.
  abbrev pub Tracked : Pump S → Type 0
  Tracked p = (p.tracker.active ≡ true) × (p.tracker.seen ≡ true → Delivered p)

  -- The payload joins what was sent.
  abbrev pub sending : Pump S → Bytes → Pump S
  sending p frame = record p {
    tracker = observe type_of p.tracker frame;
    sent = p.sent ++ (wrap frame ∷ []);
  }

  older-Delivered : (p : Pump S) (frame : Bytes) → Delivered p → Delivered (sending p frame)
  older-Delivered p frame (f, status, there) =
      (f, status, ground (arith, there, any_last (λ s. s == wrap f) p.sent (wrap frame)))

  pub sending-Delivered :
      (p : Pump S) (frame : Bytes)
      → is_some (responses_frame_terminal_status type_of frame) ≡ true
      → Delivered (sending p frame)
  sending-Delivered p frame h = (
    frame,
    h,
    ground (arith, any_last (λ s. s == wrap frame) p.sent (wrap frame), eq_self (wrap frame)),
  )

  pub sending-Tracked : (p : Pump S) (frame : Bytes) → Tracked p → Tracked (sending p frame)
  unfolding observe
  sending-Tracked p frame (active, seen) =
      elim (Option-cases (responses_frame_terminal_status type_of frame)) [
        | inl e ↦ rw (observe, e) (active, λ h. older-Delivered p frame (seen h))
        | inr (status, e) ↦ (ground (arith, active, e), λ h. sending-Delivered p frame (rw e refl))
      ]

module _ {ℓ} {S : Type ℓ} (json_valid : Bytes → Bool) (unmarshal : Bytes → Option Fields)
    (marshal : Json → Option Bytes) (type_of : Bytes → Option Bytes) (accepts : ℕ → Bytes → Bool)
    (normalize : S → Bytes → Bytes × S) where
  abbrev pub with_blank_line : Bytes → Bytes
  with_blank_line frame = frame ++ newline ∷ newline ∷ []

  terminal_status_of :
      (frame : Bytes)
      → source_protocol_terminal type_of frame responses ≡ true
      → is_some (responses_frame_terminal_status type_of frame) ≡ true
  unfolding source_protocol_terminal
  terminal_status_of frame h = ground (arith, h)

  abbrev pass : Protocol → Pump S → Bytes → Pump S × Next
  pass = pass_frame json_valid unmarshal marshal type_of accepts normalize

  pass_frame-Good :
      (p : Pump S) (raw : Bytes)
      → Tracked type_of with_blank_line p
      → Good json_valid
          (pass responses)
          (λ q. none)
          done_error
          (Tracked type_of with_blank_line)
          (Delivered type_of with_blank_line)
          (Delivered type_of with_blank_line)
          (pass responses p raw)
  unfolding pass_frame emit source_protocol_terminal
  pass_frame-Good p raw h =
      let (frame, state') = normalize p.state raw in
      let p' : Pump S = record p { state = state' } in
      let whole = with_blank_line frame in
      let terminal = source_protocol_terminal type_of frame responses in
      elim (Bool-cases (raw == [])) [
        | inl e ↦ rw (pass_frame, e) h
        | inr e ↦ elim (Bool-cases (accepts (length p.sent) whole)) [
          | inr a ↦ rw (pass_frame, e, emit, a) tt
          | inl a ↦ elim (Bool-cases terminal) [
            | inr t ↦
                rw (pass_frame, e, emit, a, t) (sending-Tracked type_of with_blank_line p' frame h)
            | inl t ↦
                rw (pass_frame, e, emit, a, t)
                  (sending-Delivered type_of with_blank_line p' frame (terminal_status_of frame t))
          ]
        ]
      ]

  -- A forwarded Responses stream that ends without an error has sent a terminal event downstream, in
  -- whatever chunks it came, and whatever the upstream and the downstream did.
  pub passed_stream_terminates :
      (max_buffer : ℕ) (state : S) (reads : List Read) (p : Pump S)
      → forward_stream_pass_through json_valid unmarshal marshal type_of accepts normalize responses
          max_buffer state reads
        ≡ (p, returned none)
      → Delivered type_of with_blank_line p
  unfolding forward_stream_pass_through new_pump done_error new_tracker missing_terminal
  passed_stream_terminates max_buffer state reads p h =
      subst
        (Fine json_valid (pass responses) (λ q. none) done_error (Tracked type_of with_blank_line)
          (Delivered type_of with_blank_line) (Delivered type_of with_blank_line))
        h
        (forward-Fine json_valid (pass responses) (λ q. none) done_error
          (Tracked type_of with_blank_line) (Delivered type_of with_blank_line)
          (Delivered type_of with_blank_line) pass_frame-Good (λ q f k. k)
          (λ q k e. k, λ q (active, seen) e. seen (ground (arith, active, e)))
          (new_pump responses max_buffer state) reads (refl, λ k. absurd (ground (arith, k))))
