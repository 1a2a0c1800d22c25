-- ===== src/Copilot/Forward/Causes.antt =====
-- internal/copilot/stream.go: which upstream errors are harmless.
use cpa_github_copilot.Common.{
  ◌≡◌, ◌⊎◌, inl, inr, true, arith, Bool-cases, Bytes, Bytes_eq, bytes_eq_iff, ◌==◌, codes,
  trim_space, to_lower,
}
use cpa_github_copilot.Copilot.Forward.{
  canceled, classify_upstream_stream_error, is_benign, new_upstream_stream_error,
}

canceled_text :
    (raw : Bytes)
    → classify_upstream_stream_error raw ≡ canceled
    → (to_lower (trim_space raw) ≡ codes "context canceled")
      ⊎ (to_lower (trim_space raw) ≡ codes "net/http: request canceled")
unfolding classify_upstream_stream_error
canceled_text raw h =
    let lower = to_lower (trim_space raw) in
    elim (Bool-cases (lower == codes "context canceled")) [
      | inl a ↦ inl ((bytes_eq_iff lower (codes "context canceled")).0 a)
      | inr a ↦ elim (Bool-cases (lower == codes "net/http: request canceled")) [
        | inl b ↦ inr ((bytes_eq_iff lower (codes "net/http: request canceled")).0 b)
        | inr b ↦ absurd (ground (arith, rw (classify_upstream_stream_error, a, b) at h))
      ]
    ]

-- An upstream error is taken as harmless only if its text, but for case and white space around it,
-- is one of the two of a cancellation by this process; none that only contains such words is.
benign_upstream_error :
    (raw : Bytes)
    → is_benign (new_upstream_stream_error raw) ≡ true
    → (to_lower (trim_space raw) ≡ codes "context canceled")
      ⊎ (to_lower (trim_space raw) ≡ codes "net/http: request canceled")
unfolding new_upstream_stream_error is_benign
benign_upstream_error raw h = canceled_text raw (ground (arith, h))
