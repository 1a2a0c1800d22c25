-- ===== src/Copilot/Terminal/Translated.antt =====
-- internal/copilot/stream.go: what the tracker of terminal events lets through of a translated
-- stream.
use cpa_github_copilot.Common.{
  ◌≡◌, refl, ◌⊎◌, inl, inr, true, Option, none, some, ◌∷◌, ◌++◌, arith, if◌then◌else◌, Bool-cases,
  Option-cases, Bytes, Bytes_eq, ◌==◌, codes,
}
use cpa_github_copilot.Common.Json.{
  Json, null, boolean, number, fraction, string, array, object, Fields, end, field,
}
use cpa_github_copilot.Copilot.Framer.{newline}
use cpa_github_copilot.Copilot.Terminal.{
  Terminal, completed, incomplete, failed, error_event, Tracker, translated_frame, is_incomplete,
  responses_frame_terminal_status, source_authorizes_translated_terminal, incomplete_event,
  incomplete_type, rewrite_responses_incomplete_frame, stream_frame_data, get, put,
}
use cpa_github_copilot.Copilot.Terminal.Members.{get-put_lem}

-- What the source has to have reported for a terminal event to go out as it is.
abbrev pub Backed : Option Terminal → Terminal → Type 0
Backed source completed = source ≡ some completed
Backed source incomplete = source ≡ some incomplete
Backed source failed = (source ≡ some failed) ⊎ (source ≡ some error_event)
Backed source error_event = (source ≡ some failed) ⊎ (source ≡ some error_event)

authorized-Backed :
    (source : Option Terminal) (status : Terminal)
    → source_authorizes_translated_terminal source status ≡ true
    → Backed source status
unfolding source_authorizes_translated_terminal
authorized-Backed none completed h = absurd (ground (arith, h))
authorized-Backed none incomplete h = absurd (ground (arith, h))
authorized-Backed none failed h = absurd (ground (arith, h))
authorized-Backed none error_event h = absurd (ground (arith, h))
authorized-Backed (some completed) completed h = refl
authorized-Backed (some completed) incomplete h = absurd (ground (arith, h))
authorized-Backed (some completed) failed h = absurd (ground (arith, h))
authorized-Backed (some completed) error_event h = absurd (ground (arith, h))
authorized-Backed (some incomplete) completed h = absurd (ground (arith, h))
authorized-Backed (some incomplete) incomplete h = refl
authorized-Backed (some incomplete) failed h = absurd (ground (arith, h))
authorized-Backed (some incomplete) error_event h = absurd (ground (arith, h))
authorized-Backed (some failed) completed h = absurd (ground (arith, h))
authorized-Backed (some failed) incomplete h = absurd (ground (arith, h))
authorized-Backed (some failed) failed h = inl refl
authorized-Backed (some failed) error_event h = inl refl
authorized-Backed (some error_event) completed h = absurd (ground (arith, h))
authorized-Backed (some error_event) incomplete h = absurd (ground (arith, h))
authorized-Backed (some error_event) failed h = inr refl
authorized-Backed (some error_event) error_event h = inr refl

is_incomplete→path : (s : Option Terminal) → is_incomplete s ≡ true → s ≡ some incomplete
unfolding is_incomplete
is_incomplete→path none h = absurd (ground (arith, h))
is_incomplete→path (some completed) h = absurd (ground (arith, h))
is_incomplete→path (some incomplete) h = refl
is_incomplete→path (some failed) h = absurd (ground (arith, h))
is_incomplete→path (some error_event) h = absurd (ground (arith, h))

-- The object is the event, but for its type, and for the status and the details of its response,
-- which say that the answer is truncated for the given reason.
abbrev pub IsTruncated : Fields → Fields → Bytes → Json → Type 0
IsTruncated event response reason written =
    (changed response' : Fields) × (written ≡ object changed)
    × ((key : Bytes)
        → get key changed ≡ (
            if codes "response" == key
            then object response'
            else if codes "type" == key
            then string (codes "response.incomplete")
            else get key event))
    × ((key : Bytes)
        → get key response' ≡ (
            if codes "incomplete_details" == key
            then object (field (codes "reason") (string reason) end)
            else if codes "status" == key
            then string (codes "incomplete")
            else get key response))

module _ (unmarshal : Bytes → Option Fields) (marshal : Json → Option Bytes)
    (type_of : Bytes → Option Bytes) where
  -- The output is the truncated event of a frame.
  abbrev pub Rewritten : Bytes → Bytes → Bytes → Type 0
  Rewritten frame reason output =
      (event response : Fields) × (written : Json) × (encoded : Bytes) × (unmarshal
          (stream_frame_data frame)
        ≡ some event)
      × (get (codes "response") event ≡ object response)
      × IsTruncated event response reason written
      × (marshal written ≡ some encoded)
      × (output ≡ codes "event: response.incomplete" ++ newline ∷ codes "data: " ++ encoded)

  incomplete_event-IsTruncated :
      (event response : Fields) (reason : Bytes)
      → IsTruncated event response reason
          (incomplete_event unmarshal marshal type_of event response reason)
  unfolding incomplete_event
  incomplete_event-IsTruncated event response reason =
      let details = object (field (codes "reason") (string reason) end) in
      let ended = put (codes "status") (string (codes "incomplete")) response in
      let response' = put (codes "incomplete_details") details ended in
      let typed = put (codes "type") (string incomplete_type) event in
      (
        put (codes "response") (object response') typed,
        response',
        refl,
        (λ key.
            rw
              (
                get-put_lem (codes "response") key (object response') typed,
                get-put_lem (codes "type") key (string incomplete_type) event,
              )
              refl),
        (λ key.
            rw
              (
                get-put_lem (codes "incomplete_details") key details ended,
                get-put_lem (codes "status") key (string (codes "incomplete")) response,
              )
              refl),
      )

  rewritten :
      (frame reason output : Bytes) (event : Fields) (j : Json)
      → unmarshal (stream_frame_data frame) ≡ some event
      → get (codes "response") event ≡ j
      → rewrite_responses_incomplete_frame unmarshal marshal type_of frame reason ≡ some output
      → Rewritten frame reason output
  unfolding rewrite_responses_incomplete_frame
  rewritten frame reason output event (object response) read found h =
      let written = incomplete_event unmarshal marshal type_of event response reason in
      elim (Option-cases (marshal written)) [
        | inl e ↦
            absurd (ground (arith, rw (rewrite_responses_incomplete_frame, read, found, e) at h))
        | inr (encoded, e) ↦ (
          event,
          response,
          written,
          encoded,
          read,
          found,
          incomplete_event-IsTruncated event response reason,
          e,
          ground (arith, rw (rewrite_responses_incomplete_frame, read, found, e) at h),
        )
      ]
  rewritten frame reason output event null read found h =
      absurd (ground (arith, rw (rewrite_responses_incomplete_frame, read, found) at h))
  rewritten frame reason output event (boolean b) read found h =
      absurd (ground (arith, rw (rewrite_responses_incomplete_frame, read, found) at h))
  rewritten frame reason output event (number n) read found h =
      absurd (ground (arith, rw (rewrite_responses_incomplete_frame, read, found) at h))
  rewritten frame reason output event (fraction sign whole) read found h =
      absurd (ground (arith, rw (rewrite_responses_incomplete_frame, read, found) at h))
  rewritten frame reason output event (string s) read found h =
      absurd (ground (arith, rw (rewrite_responses_incomplete_frame, read, found) at h))
  rewritten frame reason output event (array items) read found h =
      absurd (ground (arith, rw (rewrite_responses_incomplete_frame, read, found) at h))

  rewrite-Rewritten :
      (frame reason output : Bytes)
      → rewrite_responses_incomplete_frame unmarshal marshal type_of frame reason ≡ some output
      → Rewritten frame reason output
  unfolding rewrite_responses_incomplete_frame
  rewrite-Rewritten frame reason output h =
      elim (Option-cases (unmarshal (stream_frame_data frame))) [
        | inl e ↦ absurd (ground (arith, rw (rewrite_responses_incomplete_frame, e) at h))
        | inr (event, e) ↦ rewritten frame reason output event _ e refl h
      ]

  passed_on {κ} :
      {B : Type κ} (t : Tracker) (frame output : Bytes) (status : Terminal)
      → (if source_authorizes_translated_terminal t.source_status status then some frame else none)
        ≡ some output
      → ((output ≡ frame) × Backed t.source_status status) ⊎ B
  passed_on t frame output status h =
      elim (Bool-cases (source_authorizes_translated_terminal t.source_status status)) [
        | inl e ↦ inl (ground (arith, rw e at h), authorized-Backed t.source_status status e)
        | inr e ↦ absurd (ground (arith, rw e at h))
      ]

  -- A translated frame with a terminal event goes out unchanged, and then the source has reported the
  -- same status, or a failure for a failure; or it is a completion of a truncated source, and what
  -- goes out is the event of the frame as "response.incomplete", with the status "incomplete" and the
  -- source's reason in its response, and all other members of both as they were.
  pub translated_frame-authorized :
      (t : Tracker) (frame output : Bytes) (status : Terminal)
      → t.active ≡ true
      → responses_frame_terminal_status type_of frame ≡ some status
      → translated_frame unmarshal marshal type_of t frame ≡ some output
      → ((output ≡ frame) × Backed t.source_status status)
        ⊎ ((status ≡ completed)
            × (t.source_status ≡ some incomplete)
            × Rewritten frame t.source_reason output)
  unfolding translated_frame
  translated_frame-authorized t frame output completed active s h =
      elim (Bool-cases (is_incomplete t.source_status)) [
        | inl e ↦ inr (
          refl,
          is_incomplete→path t.source_status e,
          rewrite-Rewritten frame t.source_reason output (rw (translated_frame, active, s, e) at h),
        )
        | inr e ↦ passed_on t frame output completed (rw (translated_frame, active, s, e) at h)
      ]
  translated_frame-authorized t frame output incomplete active s h =
      passed_on t frame output incomplete (rw (translated_frame, active, s) at h)
  translated_frame-authorized t frame output failed active s h =
      passed_on t frame output failed (rw (translated_frame, active, s) at h)
  translated_frame-authorized t frame output error_event active s h =
      passed_on t frame output error_event (rw (translated_frame, active, s) at h)
