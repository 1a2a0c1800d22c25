-- ===== src/Copilot/Forward/Returns.antt =====
-- internal/copilot/stream.go: the forwarding loops end.
use cpa_github_copilot.Common.{
  ◌≡◌, refl, inl, inr, Bool, true, false, not, ◌||◌, Bool-cases, Option, some, List, [], ◌∷◌, arith,
  any, Bytes, Bytes_eq, ◌==◌, ℕ,
}
use cpa_github_copilot.Common.Json.{Json, Fields}
use cpa_github_copilot.Copilot.Framer.{
  SseFramer, Pushed, out_of_fuel, buffer_exceeded, pushed, push,
}
use cpa_github_copilot.Copilot.Framer.Pushing.{push_conserves}
use cpa_github_copilot.Copilot.Terminal.{Protocol}
use cpa_github_copilot.Copilot.Forward.{
  Read, shut_down, failed_read, chunk, Pump, Next, go_on, finished, broke, Ending, waiting,
  returned, ForwardError, service_shutdown, read_failed, buffer_limit, emit_frames, emit_tail,
  end_tail, forward, forward_stream_pass_through, forward_translated_stream,
}

-- A read behind which there is no other: a shutdown, a failed read, an error or the end.
abbrev pub is_final : Read → Bool
is_final shut_down = true
is_final failed_read = true
is_final (chunk payload error done) = not (error == []) || done

push_ends :
    (json_valid : Bytes → Bool) (f : SseFramer) (bytes : Bytes)
    → push json_valid f bytes ≡ out_of_fuel
    → ⊥
push_ends json_valid f bytes h =
    let (frames, rest, _, e) = push_conserves json_valid f bytes in ground (arith, e, h)

module _ {ℓ} {S : Type ℓ} (json_valid : Bytes → Bool) where
  abbrev pub Returns : Pump S × Ending → Type ℓ
  Returns r = (q : Pump S) × (e : Option ForwardError) × (r ≡ (q, returned e))

  module _ (emit_frame : Pump S → Bytes → Pump S × Next)
      (on_terminal : Pump S → Option ForwardError) (on_done : Pump S → Option ForwardError) where
    end_tail-Returns :
        (r : Pump S × Next) → Returns (end_tail json_valid emit_frame on_terminal on_done r)
    unfolding end_tail
    end_tail-Returns (p, go_on) = (p, on_done p, refl)
    end_tail-Returns (p, finished) = (p, on_terminal p, refl)
    end_tail-Returns (p, broke e) = (p, some e, refl)

    after_frames-Returns :
        (r : Pump S × Next) (done : Bool) (reads : List Read)
        → (done ≡ false
            → (q : Pump S) → Returns (forward json_valid emit_frame on_terminal on_done q reads))
        → Returns (elim r.1 as (λ _. Pump S × Ending) [
          | broke e ↦ (r.0, returned (some e))
          | finished ↦ (r.0, returned (on_terminal r.0))
          | go_on ↦ elim done as (λ _. Pump S × Ending) [
            | true ↦
                end_tail json_valid emit_frame on_terminal on_done
                  (emit_tail json_valid emit_frame r.0)
            | false ↦ forward json_valid emit_frame on_terminal on_done r.0 reads
          ]
        ])
    after_frames-Returns (q, broke e) done reads next = (q, some e, refl)
    after_frames-Returns (q, finished) done reads next = (q, on_terminal q, refl)
    after_frames-Returns (q, go_on) true reads next =
        end_tail-Returns (emit_tail json_valid emit_frame q)
    after_frames-Returns (q, go_on) false reads next = next refl q

    pushed-Returns :
        (p : Pump S) (result : Pushed) (done : Bool) (reads : List Read)
        → (result ≡ out_of_fuel → ⊥)
        → (done ≡ false
            → (q : Pump S) → Returns (forward json_valid emit_frame on_terminal on_done q reads))
        → Returns (elim result as (λ _. Pump S × Ending) [
          | out_of_fuel ↦ (p, waiting)
          | buffer_exceeded f ↦ (record p { framer = f }, returned (some buffer_limit))
          | pushed frames f ↦
              let r = emit_frames json_valid emit_frame (record p { framer = f }) frames in
              elim r.1 as (λ _. Pump S × Ending) [
                | broke e ↦ (r.0, returned (some e))
                | finished ↦ (r.0, returned (on_terminal r.0))
                | go_on ↦ elim done as (λ _. Pump S × Ending) [
                  | true ↦
                      end_tail json_valid emit_frame on_terminal on_done
                        (emit_tail json_valid emit_frame r.0)
                  | false ↦ forward json_valid emit_frame on_terminal on_done r.0 reads
                ]
              ]
        ])
    pushed-Returns p out_of_fuel done reads h next = absurd (h refl)
    pushed-Returns p (buffer_exceeded f) done reads h next =
        (record p { framer = f }, some buffer_limit, refl)
    pushed-Returns p (pushed frames f) done reads h next =
        after_frames-Returns (emit_frames json_valid emit_frame (record p { framer = f }) frames)
          done reads next

    pub forward-Returns :
        (p : Pump S) (reads : List Read)
        → any is_final reads ≡ true
        → Returns (forward json_valid emit_frame on_terminal on_done p reads)
    unfolding forward
    forward-Returns p [] h = absurd (ground (arith, h))
    forward-Returns p (shut_down ∷ reads) h = (p, some service_shutdown, refl)
    forward-Returns p (failed_read ∷ reads) h = (p, some read_failed, refl)
    forward-Returns p (chunk payload error done ∷ reads) h = elim (Bool-cases (not (error == []))) [
      | inl e ↦ rw (forward, e) (p, _, refl)
      | inr e ↦
          rw (forward, e)
            (pushed-Returns p (push json_valid p.framer payload) done reads
              (push_ends json_valid p.framer payload)
              (λ d q. forward-Returns q reads (ground (arith, h, e, d))))
    ]

-- Both loops return, with an error or without, once a read of the service is final: the end of the
-- stream, an error, a failed read or the shutdown of the service.
pub streams_return {ℓ} :
    {S : Type ℓ} (json_valid : Bytes → Bool) (unmarshal : Bytes → Option Fields)
    (marshal : Json → Option Bytes) (type_of : Bytes → Option Bytes) (accepts : ℕ → Bytes → Bool)
    (normalize : S → Bytes → Bytes × S) (translate : S → Bytes → List Bytes × S)
    (source output : Protocol) (requires : Bool) (max_buffer : ℕ) (state : S) (reads : List Read)
    → any is_final reads ≡ true
    → Returns json_valid (
        forward_stream_pass_through json_valid unmarshal marshal type_of accepts normalize output
          max_buffer state reads)
      × Returns json_valid (
          forward_translated_stream json_valid unmarshal marshal type_of accepts normalize translate
            source output requires max_buffer state reads)
unfolding forward_stream_pass_through forward_translated_stream
streams_return json_valid unmarshal marshal type_of accepts normalize translate source output
      requires max_buffer state reads h =
    (forward-Returns json_valid _ _ _ _ reads h, forward-Returns json_valid _ _ _ _ reads h)
