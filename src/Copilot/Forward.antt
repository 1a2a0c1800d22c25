-- ===== src/Copilot/Forward.antt =====
-- internal/copilot/stream.go: the two loops that forward an upstream stream, event by event.
-- What the code calls is a parameter: encoding/json, the normalizer and the translator of frames,
-- which keep a state `S`, and the downstream, which accepts the payload after n others or is closed.
-- The reads of the upstream are a list; at its end the loop still waits for the next one.
pub mod Failures
mod Rule
mod Returns
mod Passed
mod Translated
mod Causes
mod Examples
unfoldable pub use Failures.*
use cpa_github_copilot.Common.{
  ℕ, Bool, true, false, not, ◌&&◌, ◌||◌, Option, none, some, List, [], ◌∷◌, ◌++◌, if◌then◌else◌,
  length, is_some, Bytes, Bytes_eq, ◌==◌, codes, trim_space, split, join,
}
use cpa_github_copilot.Common.Json.{Json, Fields}
use cpa_github_copilot.Copilot.Framer.{
  newline, done_mark, SseFramer, new_sse_framer, push, pushed, buffer_exceeded, out_of_fuel, flush,
}
use cpa_github_copilot.Copilot.Terminal.{
  Protocol, chat, responses, codex, messages, other_protocol, Terminal, failed, error_event,
  replace_crlf, data_of, sse_frame_data, stream_frame_data, Tracker, new_tracker, observe,
  observe_source, allows_source_translation, missing_terminal, responses_frame_terminal_status,
  source_frame_terminal_status, translated_frame,
}

-- `normalizeSSEFrame` of stream_sse.go.
unfoldable pub normalize_sse_frame : (Bytes → Bool) → Bytes → Bytes
normalize_sse_frame json_valid raw =
    let frame = trim_space raw in
    let data' = data_of (split newline (replace_crlf frame)) in
    elim data' [
      | d ∷ ds ↦ codes "data: " ++ join newline (d ∷ ds)
      | [] ↦ if not (frame == []) && (json_valid frame || frame == done_mark) then frame else []
    ]

unfoldable pub open_ai_chat_frame_data : (Bytes → Bool) → Bytes → Bytes
open_ai_chat_frame_data json_valid frame =
    let data' = sse_frame_data frame in
    let t = trim_space frame in
    if not (data' == []) then data' else if json_valid t || t == done_mark then t else []

unfoldable pub source_protocol_terminal : (Bytes → Option Bytes) → Bytes → Protocol → Bool
source_protocol_terminal type_of frame format =
    let data' = stream_frame_data frame in
    let terminal = is_some (responses_frame_terminal_status type_of frame) in
    if data' == [] then false else elim format [
      | chat ↦ data' == done_mark
      | responses ↦ terminal
      | codex ↦ terminal
      | messages ↦ elim (type_of data') [ none ↦ false | some t ↦ t == codes "message_stop" ]
      | other_protocol ↦ false
    ]

-- One result of `readStream`, with the context looked at right after it.
pub data Read : Type 0 where
  shut_down failed_read : Read
  chunk : Bytes → Bytes → Bool → Read

-- What the loop keeps, and the payloads that went downstream.
pub record Pump {ℓ} (S : Type ℓ) : Type ℓ where
  pub framer : SseFramer
  pub tracker : Tracker
  pub source_terminal : Option Terminal
  pub state : S
  pub sent : List Bytes

-- What a frame leads to.
pub data Next : Type 0 where
  go_on finished : Next
  broke : ForwardError → Next

-- How a call of the loop stands.
pub data Ending : Type 0 where
  waiting : Ending
  returned : Option ForwardError → Ending

module _ {ℓ} {S : Type ℓ} (json_valid : Bytes → Bool) where
  module _ (emit_frame : Pump S → Bytes → Pump S × Next) where
    -- The loop over the frames.
    unfoldable pub emit_frames : Pump S → List Bytes → Pump S × Next
    emit_frames p [] = (p, go_on)
    emit_frames p (f ∷ frames) =
        let (p', next) = emit_frame p f in
        elim next [
          | go_on ↦ emit_frames p' frames
          | finished ↦ (p', finished)
          | broke e ↦ (p', broke e)
        ]

    -- The tail that Flush leaves.
    unfoldable pub emit_tail : Pump S → Pump S × Next
    emit_tail p =
        let (tail, framer') = flush p.framer in
        let p' = record p { framer = framer' } in
        if tail == [] then (p', go_on) else emit_frame p' tail

    module _ (on_terminal : Pump S → Option ForwardError)
        (on_done : Pump S → Option ForwardError) where
      unfoldable pub end_tail : Pump S × Next → Pump S × Ending
      end_tail (p, next) = elim next [
        | go_on ↦ (p, returned (on_done p))
        | finished ↦ (p, returned (on_terminal p))
        | broke e ↦ (p, returned (some e))
      ]

      unfoldable pub forward : Pump S → List Read → Pump S × Ending
      forward p [] = (p, waiting)
      forward p (shut_down ∷ reads) = (p, returned (some service_shutdown))
      forward p (failed_read ∷ reads) = (p, returned (some read_failed))
      forward p (chunk payload error done ∷ reads) =
          if not (error == [])
          then (p, returned (some (new_upstream_stream_error error)))
          else elim (push json_valid p.framer payload) [
            | out_of_fuel ↦ (p, waiting)
            | buffer_exceeded framer' ↦
                (record p { framer = framer' }, returned (some buffer_limit))
            | pushed frames framer' ↦
                let (p', next) = emit_frames (record p { framer = framer' }) frames in
                elim next [
                  | broke e ↦ (p', returned (some e))
                  | finished ↦ (p', returned (on_terminal p'))
                  | go_on ↦ elim done [ true ↦ end_tail (emit_tail p') | false ↦ forward p' reads ]
                ]
          ]

pub is_failure : Terminal → Bool
is_failure failed = true
is_failure error_event = true
is_failure _ = false

module _ {ℓ} {S : Type ℓ} where
  -- `client.emit`.
  unfoldable pub emit : (ℕ → Bytes → Bool) → Pump S → Bytes → Next → Pump S × Next
  emit accepts p payload next =
      if accepts (length p.sent) payload
      then (record p { sent = p.sent ++ (payload ∷ []) }, next)
      else (p, broke downstream_closed)

  unfoldable pub new_pump : Protocol → ℕ → S → Pump S
  new_pump output max_buffer state = record {
    framer = new_sse_framer max_buffer;
    tracker = new_tracker output;
    source_terminal = none;
    state = state;
    sent = [];
  }

  pub done_error : Pump S → Option ForwardError
  done_error p = if missing_terminal p.tracker then some missing_terminal_event else none

  -- `protocolTerminal`, unless the outputs broke.
  pub then_terminal : Bool → Pump S × Next → Pump S × Next
  then_terminal terminal (p, next) = elim next [
    | broke e ↦ (p, broke e)
    | _ ↦ (p, if terminal then finished else go_on)
  ]

  pub validate_termination : Bool → Pump S → Option ForwardError
  validate_termination requires p =
      if (requires && not (is_some p.source_terminal)) || missing_terminal p.tracker
      then some missing_terminal_event
      else none

module _ {ℓ} {S : Type ℓ} (json_valid : Bytes → Bool) (unmarshal : Bytes → Option Fields)
    (marshal : Json → Option Bytes) (type_of : Bytes → Option Bytes) (accepts : ℕ → Bytes → Bool)
    (normalize : S → Bytes → Bytes × S) where
  -- `emitFrame` of forwardStreamPassThrough.
  unfoldable pub pass_frame : Protocol → Pump S → Bytes → Pump S × Next
  pass_frame output p raw =
      let (frame, state') = normalize p.state raw in
      let p' = record p { state = state' } in
      let terminal = source_protocol_terminal type_of frame output in
      let payload = open_ai_chat_frame_data json_valid frame in
      let observed = record p' { tracker = observe type_of p.tracker frame } in
      let whole = frame ++ newline ∷ newline ∷ [] in
      let other = emit accepts observed whole (if terminal then finished else go_on) in
      if raw == [] then (p, go_on) else elim output [
        | chat ↦
            if terminal
            then (p', finished)
            else if payload == []
            then (p', go_on)
            else emit accepts p' payload go_on
        | _ ↦ other
      ]

  unfoldable pub forward_stream_pass_through : Protocol → ℕ → S → List Read → Pump S × Ending
  unfolding new_pump done_error
  forward_stream_pass_through output max_buffer state reads =
      forward json_valid (pass_frame output) (λ p. none) done_error
        (new_pump output max_buffer state) reads

  module _ (translate : S → Bytes → List Bytes × S) where
    -- One output of the translator.
    pub emit_output : Pump S → Bytes → Pump S × Next
    emit_output p o =
        if o == []
        then (p, go_on)
        else elim (translated_frame unmarshal marshal type_of p.tracker o) [
          | none ↦ (p, go_on)
          | some output ↦
              emit accepts (record p { tracker = observe type_of p.tracker output }) output go_on
        ]

    -- The loop over the outputs.
    unfoldable pub emit_outputs : Pump S → List Bytes → Pump S × Next
    unfolding emit_output
    emit_outputs p [] = (p, go_on)
    emit_outputs p (o ∷ outputs) =
        let (p', next) = emit_output p o in
        elim next [
          | go_on ↦ emit_outputs p' outputs
          | finished ↦ (p', finished)
          | broke e ↦ (p', broke e)
        ]

    -- The part of `emitFrame` behind the tests on the source status.
    pub translate_frame : Bool → Pump S → Bytes → Pump S × Next
    unfolding then_terminal
    translate_frame terminal p frame =
        let (outputs, state') = translate p.state frame in
        if not (allows_source_translation p.tracker frame)
        then (p, if terminal then finished else go_on)
        else then_terminal terminal (emit_outputs (record p { state = state' }) outputs)

    -- `emitFrame` of forwardTranslatedStream. `requires` is requireResponsesSourceTerminal.
    unfoldable pub translated_emit_frame : Protocol → Bool → Pump S → Bytes → Pump S × Next
    unfolding is_failure translate_frame
    translated_emit_frame source requires p raw =
        let (frame, state') = normalize p.state (normalize_sse_frame json_valid raw) in
        let p' = record p { state = state' } in
        let terminal = source_protocol_terminal type_of frame source in
        if frame == []
        then (p', go_on)
        else elim (source_frame_terminal_status unmarshal marshal type_of frame source) [
          | none ↦ translate_frame terminal p' frame
          | some (status, reason) ↦
              let q = record p' { tracker = observe_source p.tracker (status, reason) } in
              if is_failure status
              then (q, broke (upstream_error none))
              else translate_frame terminal
                  (if requires then record q { source_terminal = some status } else q) frame
        ]

    unfoldable pub forward_translated_stream :
        Protocol → Protocol → Bool → ℕ → S → List Read → Pump S × Ending
    unfolding validate_termination new_pump
    forward_translated_stream source output requires max_buffer state reads =
        forward json_valid (translated_emit_frame source requires) (validate_termination requires)
          (validate_termination requires) (new_pump output max_buffer state) reads
