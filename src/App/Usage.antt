-- ===== src/App/Usage.antt =====
-- internal/app/server.go: the usage counters, the log of the last 500 events, and the tokens that a
-- response reports. `read_int` stands for gjson's `Get(…).Int()` on a path, `json_valid` for
-- `json.Valid`. An int64 counter is its bit pattern, below 2 ^ 64.
mod Counting
mod Storing
mod Examples
use cpa_github_copilot.Common.{
  ℕ, suc, ◌+◌, ◌-◌, ◌/◌, ◌%◌, ◌^◌, Bool, true, false, Option, none, some, List, [], ◌∷◌, ◌++◌,
  if◌then◌else◌, ltb, leb, length, drop, Bytes, codes, trim_space, cut_prefix, split, ℤ, pos, ltb_ℤ,
  pos_part,
}

pub record Usage : Type 0 where
  pub requests : ℕ
  pub errors : ℕ
  pub input : ℕ
  pub output : ℕ

pub record Log : Type 0 where
  pub time : ℕ
  pub level : Bytes
  pub event : Bytes
  pub account : Bytes
  pub model : Bytes
  pub status : ℕ
  pub duration : ℕ
  pub input : ℕ
  pub output : ℕ
  pub client : Bytes

-- The part of `Server` under `usageMu`, with usage.json as the disk has it.
pub record Ledger : Type 0 where
  pub usage : Usage
  pub usage_dirty : Bool
  pub logs : List Log
  pub stored : Usage

abbrev pub max_logs : ℕ
max_logs = 500

pub record_log : List Log → Log → List Log
record_log logs log =
    let all = logs ++ (log ∷ []) in
    if ltb max_logs (length all) then drop (length all - max_logs) all else all

-- One call of `recordUsage`.
pub record Report : Type 0 where
  pub id : Bytes
  pub model : Bytes
  pub status : ℕ
  pub start : ℕ
  pub input : ℕ
  pub output : ℕ

-- The number of bit patterns of an int64.
abbrev pub word : ℕ
word = 2 ^ 64

unfoldable pub add_usage : Usage → Report → Usage
add_usage u r = record {
  requests = (u.requests + 1) % word;
  errors = if leb 400 r.status then (u.errors + 1) % word else u.errors;
  input = (u.input + r.input) % word;
  output = (u.output + r.output) % word;
}

-- `time.Since(start).Milliseconds()` at the time `now`.
pub request_log : ℕ → Report → Log
request_log now r = record {
  time = now;
  level = codes "info";
  event = codes "request.completed";
  account = r.id;
  model = r.model;
  status = r.status;
  duration = (now - r.start) / 1000000;
  input = r.input;
  output = r.output;
  client = [];
}

pub record_usage : ℕ → Ledger → Report → Ledger
unfolding record_log add_usage request_log
record_usage now l r = record l {
  usage = add_usage l.usage r;
  usage_dirty = true;
  logs = record_log l.logs (request_log now r);
}

-- `flushUsage`, in its two sections: what is to be written, and what follows the write. Requests may
-- complete between them.
pub flush_start : Ledger → Ledger × Option Usage
flush_start l =
    if l.usage_dirty then (record l { usage_dirty = false }, some l.usage) else (l, none)

pub flush_finish : Ledger → Usage → Bool → Ledger
flush_finish l written ok =
    if ok then record l { stored = written } else record l { usage_dirty = true }

-- What happens to the ledger over time. A flush is over before the next one starts.
pub data Event : Type 0 where
  completes : ℕ → Report → Event
  logs_event : Log → Event
  starts_flush : Event
  ends_flush : Bool → Event

pub record Running : Type 0 where
  pub ledger : Ledger
  pub pending : Option Usage

pub happens : Running → Event → Running
unfolding record_usage record_log flush_start flush_finish
happens s (completes now r) = record s { ledger = record_usage now s.ledger r }
happens s (logs_event log) = record s {
  ledger = record (s.ledger) { logs = record_log s.ledger.logs log };
}
happens s starts_flush = elim s.pending [
  | some u ↦ s
  | none ↦ let (l, written) = flush_start s.ledger in record { ledger = l; pending = written }
]
happens s (ends_flush ok) = elim s.pending [
  | none ↦ s
  | some u ↦ record { ledger = flush_finish s.ledger u ok; pending = none }
]

abbrev pub runs : Running → List Event → Running
runs s [] = s
runs s (e ∷ events) = runs (happens s e) events

abbrev pub max_ℤ : ℤ → ℤ → ℤ
max_ℤ a b = if ltb_ℤ a b then b else a

abbrev pub usage_prefixes : List Bytes
usage_prefixes = codes "usage." ∷ codes "response.usage." ∷ codes "message.usage." ∷ []

abbrev pub input_keys : List Bytes
input_keys = codes "input_tokens" ∷ codes "prompt_tokens" ∷ []

abbrev pub output_keys : List Bytes
output_keys = codes "output_tokens" ∷ codes "completion_tokens" ∷ []

-- `strings.TrimSpace(strings.TrimPrefix(line, "data:"))`.
pub trim_data : Bytes → Bytes
trim_data line =
    trim_space (elim (cut_prefix (codes "data:") line) [ none ↦ line | some rest ↦ rest ])

module _ (read_int : Bytes → Bytes → ℤ) where
  -- The loop over the keys under one prefix.
  pub best_key : Bytes → Bytes → List Bytes → ℤ → ℤ
  best_key line prefix [] best = best
  best_key line prefix (key ∷ keys) best =
      best_key line prefix keys (max_ℤ best (read_int line (prefix ++ key)))

  -- The loop over the prefixes, of the input or of the output.
  pub best_prefix : Bytes → List Bytes → List Bytes → ℤ → ℤ
  unfolding best_key
  best_prefix line keys [] best = best
  best_prefix line keys (prefix ∷ prefixes) best =
      best_prefix line keys prefixes (best_key line prefix keys best)

  -- The loop over the lines.
  pub scan_records : (Bytes → Bool) → List Bytes → ℤ × ℤ → ℤ × ℤ
  unfolding trim_data best_prefix
  scan_records json_valid [] best = best
  scan_records json_valid (raw ∷ lines) (input, output) =
      let line = trim_data raw in
      let found : ℤ × ℤ = (
        best_prefix line input_keys usage_prefixes input,
        best_prefix line output_keys usage_prefixes output,
      ) in
      scan_records json_valid lines (if json_valid line then found else (input, output))

  unfoldable pub usage_tokens : (Bytes → Bool) → Bytes → ℤ × ℤ
  unfolding scan_records
  usage_tokens json_valid body =
      scan_records json_valid (if json_valid body then body ∷ [] else split 10 body) (pos 0, pos 0)
