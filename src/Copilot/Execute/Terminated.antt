-- ===== src/Copilot/Execute/Terminated.antt =====
-- internal/copilot/executor.go: what a converted answer to a client of the Responses protocol rests on.
use cpa_github_copilot.Common.{
  ◌≡◌, refl, sym, ◌∙◌, inl, inr, true, false, ◌||◌, Bool-cases, none, some, Option-cases, arith,
  if◌then◌else◌, ltb, leb, Bytes, Bytes_eq, codes,
}
use cpa_github_copilot.Copilot.Terminal.{
  Terminal, completed, incomplete, failed, error_event, responses,
}
use cpa_github_copilot.Copilot.Prepare.{refusal, same_protocol}
use cpa_github_copilot.Copilot.Execute.{
  Answered, failed_with, responded, Codecs, source_non_stream_terminal_status,
  rewrite_responses_non_stream_incomplete, is_failure_status, converted, translate_answer,
  execute_answer,
}

module _ (codecs : Codecs) where
  -- `out` is what the converter makes of the body, as it is for a completed source, and rewritten as
  -- truncated, with its reason, for one that was cut short.
  pub IsAuthorized : Answered → Bytes → Terminal → Bytes → Bytes → Type 0
  IsAuthorized a payload completed reason out = codecs.convert a.translator a.output payload ≡ out
  IsAuthorized a payload incomplete reason out =
      rewrite_responses_non_stream_incomplete codecs (codecs.convert a.translator a.output payload)
        reason
      ≡ some out
  IsAuthorized a payload _ reason out = ⊥

  converted-IsAuthorized :
      (a : Answered) (payload : Bytes) (t : Terminal) (reason out : Bytes)
      → is_failure_status t ≡ false
      → converted codecs a payload (some (t, reason)) ≡ responded out
      → IsAuthorized a payload t reason out
  unfolding converted IsAuthorized
  converted-IsAuthorized a payload completed reason out f h = ground (arith, h)
  converted-IsAuthorized a payload incomplete reason out f h = ground (arith, h)
  converted-IsAuthorized a payload failed reason out f h = absurd (ground (arith, f))
  converted-IsAuthorized a payload error_event reason out f h = absurd (ground (arith, f))

  -- The three ways of `translate_answer` for a client of Responses whose model is served otherwise.
  translate_answer-none :
      (a : Answered) (payload : Bytes)
      → same_protocol a.translator a.output ≡ false
      → same_protocol a.output responses ≡ true
      → a.upstream_is_responses ≡ false
      → source_non_stream_terminal_status codecs payload a.translator ≡ none
      → translate_answer codecs a payload
        ≡ failed_with (refusal (codes "upstream_protocol_error") 502)
  unfolding translate_answer
  translate_answer-none a payload apart client plain e =
      rw (translate_answer, apart, plain, client, e) refl

  translate_answer-some :
      (a : Answered) (payload : Bytes) (t : Terminal) (reason : Bytes)
      → same_protocol a.translator a.output ≡ false
      → same_protocol a.output responses ≡ true
      → a.upstream_is_responses ≡ false
      → source_non_stream_terminal_status codecs payload a.translator ≡ some (t, reason)
      → translate_answer codecs a payload ≡ (
          if is_failure_status t
          then failed_with (refusal (codes "upstream_response_failed") 502)
          else converted codecs a payload (some (t, reason)))
  unfolding translate_answer
  translate_answer-some a payload t reason apart client plain e =
      rw (translate_answer, apart, plain, client, e) refl

  translate_answer-IsAuthorized :
      (a : Answered) (payload out : Bytes)
      → same_protocol a.translator a.output ≡ false
      → same_protocol a.output responses ≡ true
      → a.upstream_is_responses ≡ false
      → translate_answer codecs a payload ≡ responded out
      → (t : Terminal) × (reason : Bytes) × (source_non_stream_terminal_status codecs payload
            a.translator
          ≡ some (t, reason))
        × IsAuthorized a payload t reason out
  translate_answer-IsAuthorized a payload out apart client plain h =
      elim (Option-cases (source_non_stream_terminal_status codecs payload a.translator)) [
        | inl e ↦
            absurd (ground (arith, sym (translate_answer-none a payload apart client plain e) ∙ h))
        | inr ((t, reason), e) ↦
            let shape = sym (translate_answer-some a payload t reason apart client plain e) ∙ h in
            elim (Bool-cases (is_failure_status t)) [
              | inl f ↦ absurd (ground (arith, shape, f))
              | inr f ↦ (
                t,
                reason,
                e,
                converted-IsAuthorized a payload t reason out f (ground (arith, shape, f)),
              )
            ]
      ]

  -- A client of Responses whose model is served in another protocol gets an answer only if the
  -- service answered with success and its body has a terminal status that is no failure: the
  -- converted body if it completed, and that body marked as truncated, for its reason, if it was cut
  -- short.
  pub execute_answer-IsAuthorized :
      (a : Answered) (out : Bytes)
      → same_protocol a.translator a.output ≡ false
      → same_protocol a.output responses ≡ true
      → a.upstream_is_responses ≡ false
      → execute_answer codecs a ≡ responded out
      → (ltb a.http_status 200 || leb 300 a.http_status ≡ false)
        × ((t : Terminal) × (reason : Bytes) × (source_non_stream_terminal_status codecs
                (codecs.normalize_grok a.body)
                a.translator
              ≡ some (t, reason))
            × IsAuthorized a (codecs.normalize_grok a.body) t reason out)
  unfolding execute_answer
  execute_answer-IsAuthorized a out apart client plain h =
      elim (Bool-cases (ltb a.http_status 200 || leb 300 a.http_status)) [
        | inl e ↦ absurd (ground (arith, h, e))
        | inr e ↦ (
          e,
          translate_answer-IsAuthorized a (codecs.normalize_grok a.body) out apart client plain
              (ground (arith, h, e, plain)),
        )
      ]
