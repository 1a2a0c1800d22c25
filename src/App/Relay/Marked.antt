-- ===== src/App/Relay/Marked.antt =====
-- internal/app/server.go: the end mark of a relayed stream.
use mathlib.Core.List.{append-nil}
use cpa_github_copilot.Common.{
  ℕ, sym, map, keep_if, append_assoc, if◌then◌else◌, ◌≡◌, refl, ap, ◌∙◌, inl, inr, Bool, true,
  false, ◌&&◌, ◌||◌, List, [], ◌∷◌, ◌++◌, arith, any, length, length-append, drop, Bool-cases,
  Bytes, Bytes_eq, bytes_eq, bytes_eq_iff, ◌==◌, eq_self, codes, trim_space, ℤ,
}
use cpa_github_copilot.App.Relay.{
  openai, is_openai, Chunk, interrupted, payload, done_frame, error_frame, Relayed, is_done, start,
  marks_done, finish, frame_of, take_payload, relay, relay_stream,
}

-- How a stream ends: all chunks were passed on, an error chunk came, or the client stopped reading.
pub data End : Type 0 where
  complete broken abandoned : End

abbrev pub end_of : List Chunk → End
end_of [] = complete
end_of (interrupted ∷ chunks) = broken
end_of (payload raw written flushed ∷ chunks) =
    let rest = end_of chunks in if written && flushed then rest else abandoned

-- The payloads up to the end, with the one that the client did not read.
abbrev pub payloads : List Chunk → List Bytes
payloads [] = []
payloads (interrupted ∷ chunks) = []
payloads (payload raw written flushed ∷ chunks) =
    let rest = payloads chunks in raw ∷ (if written && flushed then rest else [])

-- A payload that is the end mark of the upstream.
abbrev pub is_mark : Bytes → Bool
is_mark raw = trim_space raw == codes "[DONE]" || trim_space raw == codes "data: [DONE]"

abbrev pub is_done_frame : Bytes → Bool
is_done_frame f = f == codes "data: [DONE]" ++ (10 ∷ 10 ∷ [])

-- What follows the payloads: the end mark, if the upstream sent none; or the error.
abbrev pub closing : End → Bool → List Bytes
closing complete true = []
closing complete false = (codes "data: [DONE]" ++ (10 ∷ 10 ∷ [])) ∷ []
closing broken marked = error_frame ∷ []
closing abandoned marked = []

abbrev pub status_of_end : End → ℕ
status_of_end complete = 200
status_of_end broken = 502
status_of_end abandoned = 499

without_blank_line : (xs ys : Bytes) → xs ++ (10 ∷ 10 ∷ []) ≡ ys ++ (10 ∷ 10 ∷ []) → xs ≡ ys
without_blank_line [] [] h = refl
without_blank_line [] (y ∷ ys) h =
    absurd (omega (arith, ap length h, length-append ys (10 ∷ 10 ∷ [])))
without_blank_line (x ∷ xs) [] h =
    absurd (omega (arith, ap length h, length-append xs (10 ∷ 10 ∷ [])))
without_blank_line (x ∷ xs) (y ∷ ys) h = ground (arith, h, without_blank_line xs ys)

-- `"data: " + raw + "\n\n"` is the end mark only if `raw` is the bare end mark.
data_frame-done :
    (raw : Bytes)
    → bytes_eq (codes "data: " ++ (raw ++ (10 ∷ 10 ∷ []))) done_frame ≡ true
    → raw ≡ codes "[DONE]"
data_frame-done raw h =
    let same : raw ++ (10 ∷ 10 ∷ []) ≡ codes "[DONE]" ++ (10 ∷ 10 ∷ []) =
      ap (drop 6) ((bytes_eq_iff (codes "data: " ++ (raw ++ (10 ∷ 10 ∷ []))) done_frame).0 h) in
    without_blank_line raw (codes "[DONE]") same

done_texts :
    (is_done (trim_space (codes "[DONE]")) ≡ true) × (is_done (trim_space done_frame) ≡ true)
unfolding is_done trim_space bytes_eq
done_texts = (refl, refl)

not_done :
    (raw whole : Bytes)
    → is_done (trim_space raw) ≡ false
    → (whole ≡ done_frame → is_done (trim_space raw) ≡ true)
    → bytes_eq whole done_frame ≡ false
not_done raw whole d h = elim (Bool-cases (bytes_eq whole done_frame)) [
  | inl e ↦ cc (h ((bytes_eq_iff whole done_frame).0 e))
  | inr e ↦ e
]

module _ (json_valid : Bytes → Bool) where
  framed :
      (raw : Bytes)
      → bytes_eq (frame_of json_valid openai raw) done_frame ≡ is_done (trim_space raw)
  unfolding frame_of marks_done is_openai
  framed raw = elim (Bool-cases (is_done (trim_space raw))) [
    | inl d ↦ rw (frame_of, d) (eq_self done_frame)
    | inr d ↦ elim (Bool-cases (json_valid raw)) [
      | inl j ↦
          rw (frame_of, d, j)
            (not_done raw (codes "data: " ++ (raw ++ (10 ∷ 10 ∷ []))) d (λ e.
              ap (λ r. is_done (trim_space r))
                (data_frame-done raw
                  ((bytes_eq_iff (codes "data: " ++ (raw ++ (10 ∷ 10 ∷ []))) done_frame).1 e))
              ∙ done_texts.0))
      | inr j ↦
          rw (frame_of, d, j)
            (not_done raw raw d (λ e. ap (λ r. is_done (trim_space r)) e ∙ done_texts.1))
    ]
  ]

error_not_done : bytes_eq error_frame done_frame ≡ false
unfolding bytes_eq
error_not_done = refl

module _ (json_valid : Bytes → Bool) (tokens : Bytes → ℤ × ℤ) where
  -- The frame of a payload: the end mark, an event with the JSON, or the payload as it is.
  abbrev pub frame : Bytes → Bytes
  frame raw =
      if is_mark raw
      then codes "data: [DONE]" ++ (10 ∷ 10 ∷ [])
      else if json_valid raw
      then codes "data: " ++ (raw ++ (10 ∷ 10 ∷ []))
      else raw

  -- What the loop adds to the variables.
  relay_lem :
      (r : Relayed) (chunks : List Chunk)
      → r.status ≡ 200
      → let out = relay json_valid tokens openai r chunks in
        (out.status ≡ status_of_end (end_of chunks))
        × (out.sent_done ≡ (r.sent_done || any is_mark (payloads chunks)))
        × (out.written
            ≡ r.written
              ++ (map frame (payloads chunks)
                  ++ elim (end_of chunks) [ broken ↦ error_frame ∷ [] | _ ↦ [] ]))
  unfolding relay take_payload frame_of marks_done is_openai is_done
  relay_lem r [] h = (h, ground arith, sym (append-nil r.written))
  relay_lem r (interrupted ∷ chunks) h = (refl, ground arith, refl)
  relay_lem r (payload raw written flushed ∷ chunks) h =
      let next = take_payload json_valid tokens openai r raw in
      elim (Bool-cases (written && flushed)) [
        | inl e ↦
            let (status, sent, out) = relay_lem next chunks h in
            rw (relay, e)
              (status, ground (arith, sent), out ∙ append_assoc r.written (frame raw ∷ []) _)
        | inr e ↦ rw (relay, e) (refl, ground arith, refl)
      ]

  marks_of_frames :
      (raws : List Bytes)
      → length (keep_if is_done_frame (map frame raws)) ≡ length (keep_if is_mark raws)
  unfolding frame_of marks_done is_openai is_done
  marks_of_frames [] = refl
  marks_of_frames (raw ∷ raws) = ground (arith, framed json_valid raw, marks_of_frames raws)

  finish_lem :
      (r : Relayed) (e : End) (marked : Bool) (frames : List Bytes)
      → r.status ≡ status_of_end e
      → r.sent_done ≡ marked
      → r.written ≡ frames ++ elim e as (λ _. List Bytes) [ broken ↦ error_frame ∷ [] | _ ↦ [] ]
      → ((finish openai r).status ≡ status_of_end e)
        × ((finish openai r).written ≡ frames ++ closing e marked)
  unfolding finish is_openai
  finish_lem r complete true frames h k l = (ground (arith, h, k), ground (arith, h, k, l))
  finish_lem r complete false frames h k l =
      (ground (arith, h, k), rw (finish, h, k, l) (append_assoc frames [] (done_frame ∷ [])))
  finish_lem r broken marked frames h k l = (ground (arith, h), ground (arith, h, l))
  finish_lem r abandoned marked frames h k l = (ground (arith, h), ground (arith, h, l))

  -- A relayed stream of Chat Completions writes a frame for each payload up to its end. Behind them
  -- stands the end mark, if all was passed on and the upstream sent no mark itself; an error, if the
  -- upstream broke off; and nothing, if the client stopped reading. A frame is the mark only for a
  -- payload that is one, so that a complete stream has a mark, and the relay adds none to another.
  pub relay_stream-marked :
      (chunks : List Chunk)
      → let out = relay_stream json_valid tokens openai chunks in
        let raws = payloads chunks in
        (out.status ≡ status_of_end (end_of chunks))
        × (out.written ≡ map frame raws ++ closing (end_of chunks) (any is_mark raws))
        × (length (keep_if is_done_frame (map frame raws)) ≡ length (keep_if is_mark raws))
  unfolding relay_stream start
  relay_stream-marked chunks =
      let (status, sent, out) = relay_lem start chunks refl in
      let (status', out') =
        finish_lem (relay json_valid tokens openai start chunks) (end_of chunks)
          (any is_mark (payloads chunks)) (map frame (payloads chunks)) status sent out in
      (status', out', marks_of_frames (payloads chunks))
