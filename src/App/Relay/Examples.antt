-- ===== src/App/Relay/Examples.antt =====
-- Runs of a relayed stream, and its theorem at one.
use cpa_github_copilot.Common.{
  ◌≡◌, refl, Bool, true, false, List, [], ◌∷◌, ◌++◌, nat_eq, Bytes, Bytes_eq, bytes_eq, codes, ℤ,
  pos, trim_space, any, map, keep_if, length,
}
use cpa_github_copilot.App.Relay.{
  openai, Chunk, interrupted, payload, done_frame, error_frame, relay, relay_stream, start, finish,
  is_done,
}
use cpa_github_copilot.App.Relay.Marked.{
  end_of, payloads, is_mark, is_done_frame, closing, status_of_end, frame, relay_stream-marked,
}

-- Only objects are taken as JSON here.
valid : Bytes → Bool
valid [] = false
valid (c ∷ s) = nat_eq c 123

no_tokens : Bytes → ℤ × ℤ
no_tokens s = (pos 0, pos 0)

chunks : List Chunk
chunks = payload (codes "{}") true true ∷ payload (codes " [DONE]") true true ∷ interrupted ∷ []

-- The client sees the mark of the upstream although the stream then breaks off.
relayed :
    (relay_stream valid no_tokens openai chunks).written
    ≡ (codes "data: {}" ++ (10 ∷ 10 ∷ [])) ∷ done_frame ∷ error_frame ∷ []
unfolding relay_stream relay start finish valid no_tokens chunks bytes_eq trim_space is_done
relayed = refl

-- A stream with a mark of the upstream that ends well gets no second one.
marked_once :
    (relay_stream valid no_tokens openai (payload (codes "[DONE]") true true ∷ [])).written
    ≡ done_frame ∷ []
unfolding relay_stream relay start finish valid no_tokens bytes_eq trim_space is_done
marked_once = refl

relay_stream-marked_example :
    let out = relay_stream valid no_tokens openai chunks in
    (out.status ≡ status_of_end (end_of chunks))
    × (out.written
        ≡ map (frame valid no_tokens) (payloads chunks)
          ++ closing (end_of chunks) (any is_mark (payloads chunks)))
    × (length (keep_if is_done_frame (map (frame valid no_tokens) (payloads chunks)))
        ≡ length (keep_if is_mark (payloads chunks)))
relay_stream-marked_example = relay_stream-marked valid no_tokens chunks
