-- ===== src/Copilot/Framer.antt =====
-- internal/copilot/stream_sse.go: the framer that cuts an upstream stream into SSE events.
-- `json_valid` stands for `json.Valid`. The loop of Push runs on fuel, of which the length of the
-- buffer is enough, since every boundary takes at least one byte off it.
mod Conserve
pub mod Pushing
mod Examples
use cpa_github_copilot.Common.{
  ℕ, zero, suc, ◌+◌, Bool, true, false, not, ◌&&◌, ◌||◌, Option, none, some, List, [], ◌∷◌, ◌++◌,
  if◌then◌else◌, ltb, nat_eq, length, take, drop, Bytes, Bytes_eq, Eq, ◌==◌, codes, trim_space,
  has_prefix, split,
}

abbrev pub newline : ℕ
newline = 10

-- The separators "\n\n" and "\r\n\r\n".
abbrev pub lf_lf : Bytes
lf_lf = 10 ∷ 10 ∷ []

abbrev pub crlf_crlf : Bytes
crlf_crlf = 13 ∷ 10 ∷ 13 ∷ 10 ∷ []

abbrev pub data_prefix : Bytes
data_prefix = codes "data:"

abbrev pub done_mark : Bytes
done_mark = codes "[DONE]"

-- `bytes.Index`.
unfoldable pub index_of : Bytes → Bytes → Option ℕ
index_of pattern' [] = if has_prefix pattern' [] then some 0 else none
index_of pattern' (c ∷ s) =
    let later : Option ℕ = elim (index_of pattern' s) [ none ↦ none | some i ↦ some (suc i) ] in
    if has_prefix pattern' (c ∷ s) then some 0 else later

-- Where a frame ends, and how many bytes of separator follow it.
abbrev pub Boundary : Type 0
Boundary = ℕ × ℕ

unfoldable pub next_sse_separator : Bytes → Option Boundary
next_sse_separator raw = elim (index_of lf_lf raw) [
  | none ↦ elim (index_of crlf_crlf raw) [ none ↦ none | some crlf ↦ some (crlf, 4) ]
  | some lf ↦ elim (index_of crlf_crlf raw) [
    | none ↦ some (lf, 2)
    | some crlf ↦ if ltb lf crlf then some (lf, 2) else some (crlf, 4)
  ]
]

pub starts_json : Bytes → Bool
starts_json [] = false
starts_json (c ∷ s) = nat_eq c 123 || nat_eq c 91

pub is_last : List Bytes → Bool
is_last [] = true
is_last (l ∷ lines) = false

-- `newSSEFramer`, whose bound of zero (or less) stands for four MiB.
pub record SseFramer : Type 0 where
  pub buffer : Bytes
  pub max_size : ℕ

unfoldable pub new_sse_framer : ℕ → SseFramer
new_sse_framer m = record { buffer = []; max_size = if nat_eq m 0 then 4194304 else m }

-- `if len(frame) > 0 { frames = append(frames, frame) }`, in front of the later ones.
unfoldable pub add_frame : Bytes → List Bytes → List Bytes
add_frame raw frames = let frame = trim_space raw in if frame == [] then frames else frame ∷ frames

-- The results of Push. Beyond its bound the frames are dropped, and the buffer stays.
pub data Pushed : Type 0 where
  out_of_fuel : Pushed
  buffer_exceeded : SseFramer → Pushed
  pushed : List Bytes → SseFramer → Pushed

module _ (json_valid : Bytes → Bool) where
  unfoldable pub is_complete_stream_data : Bytes → Bool
  unfolding starts_json
  is_complete_stream_data payload =
      let p = trim_space payload in p == done_mark || (starts_json p && json_valid p)

  -- The loop over the lines of `raw`, of which `start` is the offset of the first one left and
  -- `seen` tells that a data line came before. Only the last line has no newline.
  pub scan_lines : ℕ → Bool → List Bytes → Option Boundary
  unfolding is_last
  scan_lines start seen [] = none
  scan_lines start seen (l ∷ lines) =
      let line = trim_space l in
      let line_end = start + length l in
      let last = is_last lines in
      let is_data = has_prefix data_prefix line in
      let rest = scan_lines (suc line_end) (seen || is_data) lines in
      if is_data && seen
      then none
      else if is_data && is_complete_stream_data (trim_space (drop 5 line))
      then some (line_end, if last then 0 else 1)
      else rest

  unfoldable pub next_complete_sse_data_line : Bytes → Option Boundary
  unfolding scan_lines
  next_complete_sse_data_line raw = scan_lines 0 false (split newline raw)

  -- The choice of Push between the two.
  unfoldable pub next_boundary : Bytes → Option Boundary
  next_boundary buffer = elim (next_complete_sse_data_line buffer) [
    | none ↦ next_sse_separator buffer
    | some line ↦ elim (next_sse_separator buffer) [
      | none ↦ some line
      | some separator ↦ if ltb line.0 separator.0 then some line else some separator
    ]
  ]

  -- The loop of Push: the frames and the rest of the buffer, `none` when the fuel runs out.
  unfoldable pub drain : ℕ → Bytes → Option (List Bytes × Bytes)
  drain zero buffer = elim (next_boundary buffer) [ none ↦ some ([], buffer) | some b ↦ none ]
  drain (suc fuel) buffer = elim (next_boundary buffer) [
    | none ↦ some ([], buffer)
    | some (end, size) ↦ elim (drain fuel (drop (end + size) buffer)) [
      | none ↦ none
      | some (frames, rest) ↦ some (add_frame (take end buffer) frames, rest)
    ]
  ]

  unfoldable pub push : SseFramer → Bytes → Pushed
  push f chunk =
      let buffer = f.buffer ++ chunk in
      elim (drain (length buffer) buffer) [
        | none ↦ out_of_fuel
        | some (frames, rest) ↦
            let f' = record f { buffer = rest } in
            if ltb f.max_size (length rest) then buffer_exceeded f' else pushed frames f'
      ]

unfoldable pub flush : SseFramer → Bytes × SseFramer
flush f = (trim_space f.buffer, record f { buffer = [] })
