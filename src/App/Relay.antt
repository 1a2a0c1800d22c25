-- ===== src/App/Relay.antt =====
-- internal/app/server.go: the end of `inference` for a stream: the chunks of the engine go to the
-- client as server-sent events. `json_valid` stands for `json.Valid`, `tokens` for usageTokens of a
-- payload. Whether a write and the flush behind it succeed comes with each chunk.
mod Marked
mod Examples
use cpa_github_copilot.Common.{
  ℕ, Bool, true, false, not, ◌&&◌, ◌||◌, List, [], ◌∷◌, ◌++◌, if◌then◌else◌, Bytes, Bytes_eq, Eq,
  ◌==◌, nat_eq, codes, trim_space, ℤ, pos,
}
use cpa_github_copilot.App.Usage.{max_ℤ}

-- The formats of the three endpoints.
pub data ApiFormat : Type 0 where
  openai openai_response claude : ApiFormat

pub is_openai : ApiFormat → Bool
is_openai openai = true
is_openai _ = false

-- `copilot.Chunk`, with the results of `write` and `Flush` for it.
pub data Chunk : Type 0 where
  interrupted : Chunk
  payload : Bytes → Bool → Bool → Chunk

abbrev pub done_frame : Bytes
done_frame = codes "data: [DONE]" ++ (10 ∷ 10 ∷ [])

abbrev pub error_frame : Bytes
error_frame =
    codes
      "event: error\ndata: {\"type\":\"error\",\"error\":{\"type\":\"upstream_error\",\"message\":\"Copilot stream interrupted\"}}\n\n"

-- The variables of the loop, with what was written, successfully or not.
pub record Relayed : Type 0 where
  pub status : ℕ
  pub input : ℤ
  pub output : ℤ
  pub sent_done : Bool
  pub written : List Bytes

unfoldable pub is_done : Bytes → Bool
is_done trimmed = trimmed == codes "[DONE]" || trimmed == codes "data: [DONE]"

unfoldable pub start : Relayed
start = record { status = 200; input = pos 0; output = pos 0; sent_done = false; written = [] }

pub marks_done : ApiFormat → Bytes → Bool
unfolding is_openai is_done
marks_done format raw = is_openai format && is_done (trim_space raw)

-- The end mark that is written at the end.
unfoldable pub finish : ApiFormat → Relayed → Relayed
unfolding is_openai
finish format r =
    if is_openai format && nat_eq r.status 200 && not r.sent_done
    then record r { written = r.written ++ (done_frame ∷ []) }
    else r

module _ (json_valid : Bytes → Bool) where
  -- The frame for a payload.
  pub frame_of : ApiFormat → Bytes → Bytes
  unfolding is_openai marks_done
  frame_of format raw =
      if marks_done format raw
      then done_frame
      else if is_openai format && json_valid raw
      then codes "data: " ++ (raw ++ (10 ∷ 10 ∷ []))
      else raw

module _ (json_valid : Bytes → Bool) (tokens : Bytes → ℤ × ℤ) where
  -- The variables when a payload has been written.
  pub take_payload : ApiFormat → Relayed → Bytes → Relayed
  unfolding frame_of marks_done
  take_payload format r raw =
      let (i, o) = tokens raw in
      record r {
        input = max_ℤ r.input i;
        output = max_ℤ r.output o;
        sent_done = r.sent_done || marks_done format raw;
        written = r.written ++ (frame_of json_valid format raw ∷ []);
      }

  -- The loop over the chunks.
  unfoldable pub relay : ApiFormat → Relayed → List Chunk → Relayed
  unfolding take_payload
  relay format r [] = r
  relay format r (interrupted ∷ chunks) = record r {
    status = 502;
    written = r.written ++ (error_frame ∷ []);
  }
  relay format r (payload raw written flushed ∷ chunks) =
      let next = take_payload format r raw in
      let rest = relay format next chunks in
      if written && flushed then rest else record next { status = 499 }

  unfoldable pub relay_stream : ApiFormat → List Chunk → Relayed
  relay_stream format chunks = finish format (relay format start chunks)
