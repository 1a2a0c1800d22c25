-- ===== src/App/Usage/Counting.antt =====
-- internal/app/server.go: the counters and the log over any sequence of requests and flushes.
use cpa_github_copilot.Common.{
  ℕ, zero, suc, ◌+◌, ◌-◌, ◌≤◌, ◌≡◌, refl, sym, ap, ◌∙◌, subst, Bool, List, [], ◌∷◌, ◌++◌, arith,
  length, keep_if, sum, map, leb, codes, ◌%◌, ◌^◌, ◌/◌, ◌<◌, length-append, length-drop, drop,
}
use cpa_github_copilot.App.Usage.{
  Usage, Log, Report, max_logs, record_log, add_usage, request_log, record_usage, flush_start,
  flush_finish, Event, completes, logs_event, starts_flush, ends_flush, Running, happens, runs,
}

module _ {ℓ} {A : Type ℓ} where
  drop-append : (k : ℕ) (xs ys : List A) → k ≤ length xs → drop k (xs ++ ys) ≡ drop k xs ++ ys
  drop-append zero xs ys h = refl
  drop-append (suc k) [] ys h = absurd (omega arith)
  drop-append (suc k) (x ∷ xs) ys h = drop-append k xs ys (omega arith)

  drop-nil : (n : ℕ) → drop n (let none' : List A = [] in none') ≡ []
  drop-nil zero = refl
  drop-nil (suc n) = refl

  drop-drop : (j k n : ℕ) (xs : List A) → n ≡ k + j → drop j (drop k xs) ≡ drop n xs
  drop-drop j zero n xs h = ap (λ m. drop m xs) (omega arith)
  drop-drop j (suc k) n [] h = drop-nil j ∙ sym (drop-nil n)
  drop-drop j (suc k) n (x ∷ xs) h =
      let same : n ≡ suc (k + j) = omega arith in rw same (drop-drop j k (k + j) xs refl)

-- The last entries of a log, as many as are kept.
abbrev pub keep_last : List Log → List Log
keep_last logs = drop (length logs - max_logs) logs

record_log_lem :
    (logs : List Log) (log : Log) → record_log logs log ≡ keep_last (logs ++ (log ∷ []))
unfolding record_log
record_log_lem logs log = ground arith

-- To forget early is to forget late.
keep_last-keep_last :
    (logs : List Log) (log : Log)
    → keep_last (keep_last logs ++ (log ∷ [])) ≡ keep_last (logs ++ (log ∷ []))
keep_last-keep_last logs log =
    let a = length logs - max_logs in
    let b = length (drop a logs ++ (log ∷ [])) - max_logs in
    let len = length-append (drop a logs) (log ∷ []) in
    let len' = length-append logs (log ∷ []) in
    ap (drop b) (sym (drop-append a logs (log ∷ []) (omega arith)))
    ∙ drop-drop b a (length (logs ++ (log ∷ [])) - max_logs) (logs ++ (log ∷ []))
        (omega (arith, len, len', length-drop a logs))

-- The requests that the events report, in order.
abbrev pub reports : List Event → List Report
reports [] = []
reports (completes now r ∷ events) = r ∷ reports events
reports (logs_event log ∷ events) = reports events
reports (starts_flush ∷ events) = reports events
reports (ends_flush ok ∷ events) = reports events

-- The entry of a request in the log.
abbrev pub entry : ℕ → Report → Log
entry now r = record {
  time = now;
  level = codes "info";
  event = codes "request.completed";
  account = r.id;
  model = r.model;
  status = r.status;
  duration = (now - r.start) / 1000000;
  input = r.input;
  output = r.output;
  client = [];
}

-- All that was ever logged.
abbrev pub logged : List Log → List Event → List Log
logged logs [] = logs
logged logs (completes now r ∷ events) = logged (logs ++ (entry now r ∷ [])) events
logged logs (logs_event log ∷ events) = logged (logs ++ (log ∷ [])) events
logged logs (starts_flush ∷ events) = logged logs events
logged logs (ends_flush ok ∷ events) = logged logs events

-- `after` are the counters `before` with the reports: the number of all, of those with an error
-- status, and the sums of their tokens, on the 64 bits that a counter has.
pub record IsTotal (before after : Usage) (rs : List Report) : Type 0 where
  pub requests : after.requests ≡ (before.requests + length rs) % 2 ^ 64
  pub errors : after.errors ≡ (before.errors + length (keep_if (λ r. leb 400 r.status) rs)) % 2 ^ 64
  pub input : after.input ≡ (before.input + sum (map (λ r. r.input) rs)) % 2 ^ 64
  pub output : after.output ≡ (before.output + sum (map (λ r. r.output) rs)) % 2 ^ 64

-- The counters are bit patterns of 64 bits.
pub record IsWords (u : Usage) : Type 0 where
  pub requests : u.requests < 2 ^ 64
  pub errors : u.errors < 2 ^ 64
  pub input : u.input < 2 ^ 64
  pub output : u.output < 2 ^ 64

add_usage-IsWords : (u : Usage) (r : Report) → IsWords u → IsWords (add_usage u r)
unfolding add_usage
add_usage-IsWords u r w = record {
  requests = omega arith;
  errors = ground (arith, w.errors);
  input = omega arith;
  output = omega arith;
}

nothing-IsTotal : (u : Usage) → IsWords u → IsTotal u u []
nothing-IsTotal u w = record {
  requests = omega (arith, w.requests);
  errors = omega (arith, w.errors);
  input = omega (arith, w.input);
  output = omega (arith, w.output);
}

add_usage-IsTotal :
    (u after : Usage) (r : Report) (rs : List Report)
    → IsTotal (add_usage u r) after rs
    → IsTotal u after (r ∷ rs)
unfolding add_usage
add_usage-IsTotal u after r rs t = record {
  requests = omega (arith, t.requests);
  errors = ground (arith, t.errors);
  input = omega (arith, t.input);
  output = omega (arith, t.output);
}

record_log-keep_last :
    (logs full : List Log) (log : Log)
    → logs ≡ keep_last full
    → record_log logs log ≡ keep_last (full ++ (log ∷ []))
record_log-keep_last logs full log h =
    record_log_lem logs log ∙ ap (λ l. keep_last (l ++ (log ∷ []))) h ∙ keep_last-keep_last full log

start-same :
    (s : Running)
    → ((happens s starts_flush).ledger.usage ≡ s.ledger.usage)
      × ((happens s starts_flush).ledger.logs ≡ s.ledger.logs)
unfolding happens flush_start
start-same s = ground arith

end-same :
    (s : Running) (ok : Bool)
    → ((happens s (ends_flush ok)).ledger.usage ≡ s.ledger.usage)
      × ((happens s (ends_flush ok)).ledger.logs ≡ s.ledger.logs)
unfolding happens flush_finish
end-same s ok = ground arith

-- However requests, other events and flushes follow one another, each counter is, on its 64 bits, what
-- it was, with the number of the requests, of those with a status of 400 or more, and the sums of
-- their input and output tokens; and the log is the last 500 entries of all that was ever logged,
-- with one for each request.
pub ledger_refines :
    (s : Running) (full : List Log) (events : List Event)
    → IsWords s.ledger.usage
    → s.ledger.logs ≡ keep_last full
    → IsTotal s.ledger.usage (runs s events).ledger.usage (reports events)
      × ((runs s events).ledger.logs ≡ keep_last (logged full events))
unfolding happens record_usage request_log
ledger_refines s full [] w h = (nothing-IsTotal s.ledger.usage w, h)
ledger_refines s full (completes now r ∷ events) w h =
    let next = happens s (completes now r) in
    let (counted, logs) =
      ledger_refines next (full ++ (entry now r ∷ [])) events (add_usage-IsWords s.ledger.usage r w)
        (record_log-keep_last s.ledger.logs full (entry now r) h) in
    (
      add_usage-IsTotal s.ledger.usage (runs next events).ledger.usage r (reports events) counted,
      logs,
    )
ledger_refines s full (logs_event log ∷ events) w h =
    ledger_refines (happens s (logs_event log)) (full ++ (log ∷ [])) events w
      (record_log-keep_last s.ledger.logs full log h)
ledger_refines s full (starts_flush ∷ events) w h =
    let next = happens s starts_flush in
    let same = start-same s in
    let (counted, logs) =
      ledger_refines next full events (subst IsWords (sym same.0) w) (same.1 ∙ h) in
    (subst (λ u. IsTotal u (runs next events).ledger.usage (reports events)) same.0 counted, logs)
ledger_refines s full (ends_flush ok ∷ events) w h =
    let next = happens s (ends_flush ok) in
    let same = end-same s ok in
    let (counted, logs) =
      ledger_refines next full events (subst IsWords (sym same.0) w) (same.1 ∙ h) in
    (subst (λ u. IsTotal u (runs next events).ledger.usage (reports events)) same.0 counted, logs)
