-- ===== src/Copilot/Framer/Pushing.antt =====
-- internal/copilot/stream_sse.go: Push on its buffer and a chunk.
use cpa_github_copilot.Common.{
  ℕ, zero, suc, ◌+◌, ◌≤◌, ◌≡◌, refl, sym, ap, ◌∙◌, inl, inr, Bool, not, none, some, List, [], ◌∷◌,
  ◌++◌, arith, if◌then◌else◌, ltb, length, take, drop, length-drop, keep_if-append, Bool-cases,
  Option-cases, Bytes, Bytes_eq, bytes_eq_iff, ◌==◌, is_space, trim_space, append_assoc,
}
use cpa_github_copilot.Copilot.Framer.{
  next_boundary, add_frame, drain, SseFramer, buffer_exceeded, pushed, push,
}
use cpa_github_copilot.Copilot.Framer.Conserve.{
  squeeze, squeeze-trim_space, Cuts, next_boundary-Cuts,
}

-- The bytes of some frames, one after the other.
abbrev pub flat : List Bytes → Bytes
flat [] = []
flat (f ∷ frames) = f ++ flat frames

flat-add_frame :
    (raw : Bytes) (frames : List Bytes)
    → squeeze (flat (add_frame raw frames)) ≡ squeeze raw ++ squeeze (flat frames)
unfolding add_frame
flat-add_frame raw frames =
    let same = squeeze-trim_space raw in
    elim (Bool-cases (trim_space raw == [])) [
      | inl e ↦
          let blank : squeeze raw ≡ [] =
            sym same ∙ ap squeeze ((bytes_eq_iff (trim_space raw) []).0 e) in
          rw (add_frame, e, blank) refl
      | inr e ↦
          rw (add_frame, e, ← same)
            (keep_if-append (λ c. not (is_space c)) (trim_space raw) (flat frames))
    ]

module _ (json_valid : Bytes → Bool) where
  -- What the loop of Push makes of a buffer.
  abbrev pub Drained : Bytes → List Bytes → Bytes → Type 0
  Drained buffer frames rest =
      (squeeze (flat frames) ++ squeeze rest ≡ squeeze buffer)
      × (next_boundary json_valid rest ≡ none)
      × (length rest ≤ length buffer)

  later_frames :
      (end size : ℕ) (buffer : Bytes) (frames : List Bytes) (rest : Bytes)
      → Cuts buffer (end, size)
      → Drained (drop (end + size) buffer) frames rest
      → Drained buffer (add_frame (take end buffer) frames) rest
  unfolding Cuts
  later_frames end size buffer frames rest (bound, some', cut) (same, stop, small) =
      let after = drop (end + size) buffer in
      (
        ap (λ t. t ++ squeeze rest) (flat-add_frame (take end buffer) frames)
            ∙ append_assoc (squeeze (take end buffer)) (squeeze (flat frames)) (squeeze rest)
            ∙ ap (λ t. squeeze (take end buffer) ++ t) same
            ∙ sym cut,
        stop,
        omega (arith, length-drop (end + size) buffer),
      )

  drain_lem :
      (fuel : ℕ) (buffer : Bytes)
      → length buffer ≤ fuel
      → (frames : List Bytes) × (rest : Bytes) × (drain json_valid fuel buffer
          ≡ some (frames, rest))
        × Drained buffer frames rest
  unfolding drain Cuts
  drain_lem zero buffer h = elim (Option-cases (next_boundary json_valid buffer)) [
    | inl stop ↦ ([], buffer, rw (drain, stop) refl, (refl, stop, omega arith))
    | inr (b, found) ↦ absurd (
        omega (
          arith,
          (next_boundary-Cuts json_valid buffer b found).0,
          (next_boundary-Cuts json_valid buffer b found).1,
        ))
  ]
  drain_lem (suc fuel) buffer h = elim (Option-cases (next_boundary json_valid buffer)) [
    | inl stop ↦ ([], buffer, rw (drain, stop) refl, (refl, stop, omega arith))
    | inr ((end, size), found) ↦
        let cut = next_boundary-Cuts json_valid buffer (end, size) found in
        let after = drop (end + size) buffer in
        let (frames, rest, same, drained) =
          drain_lem fuel after (omega (arith, cut.0, cut.1, length-drop (end + size) buffer)) in
        (
          add_frame (take end buffer) frames,
          rest,
          rw (drain, found, same) refl,
          later_frames end size buffer frames rest cut drained,
        )
  ]

  -- Push always ends, and of the buffer and the chunk behind it, it makes frames and a rest, in which
  -- no further event is complete, no longer than the two together and with the same bytes in the same
  -- order but for white space. Beyond the bound on the rest it fails, else it returns the frames.
  pub push_conserves :
      (f : SseFramer) (chunk : Bytes)
      → (frames : List Bytes) × (rest : Bytes) × Drained (f.buffer ++ chunk) frames rest
        × (push json_valid f chunk ≡ (
            if ltb f.max_size (length rest)
            then buffer_exceeded (record f { buffer = rest })
            else pushed frames (record f { buffer = rest })))
  unfolding push
  push_conserves f chunk =
      let buffer = f.buffer ++ chunk in
      let (frames, rest, same, drained) = drain_lem (length buffer) buffer (omega arith) in
      (frames, rest, drained, rw (push, same) refl)
