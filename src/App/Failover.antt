-- ===== src/App/Failover.antt =====
-- internal/app/server.go: `inference` from the checks on the request to the answer, through the
-- accounts that `candidates` proposes. What each account's calls (checkQuota, refresh, catalog, the
-- engine) lead to comes as a visit of it: the account as those calls leave it, and their results.
mod Answers
mod Examples
use cpa_github_copilot.Common.{
  ℕ, ◌+◌, ◌*◌, Bool, true, false, not, ◌&&◌, ◌||◌, Option, none, some, List, [], ◌∷◌, ◌++◌,
  if◌then◌else◌, any, length, Bytes, Bytes_eq, Eq, ◌==◌, ltb, leb, nat_eq, codes, Map, lookup,
}
use cpa_github_copilot.App.Account.{Account, Guard, CooldownKind, auth_failure, rate_limit}
use cpa_github_copilot.App.Quota.{minute}
use cpa_github_copilot.App.Relay.{ApiFormat, openai, openai_response, claude}

-- `statusOf`: of an error with no status, 502.
unfoldable pub status_of : Option ℕ → ℕ
status_of none = 502
status_of (some status) = status

-- What the engine gives for one account: an error, by its status if it has one; a response; a stream.
pub data Execution : Type 0 where
  fails : Option ℕ → Execution
  responds : Bytes → Execution
  streams : Execution

-- One turn of the loop over the accounts.
pub record Visit : Type 0 where
  pub canceled : Bool
  pub canceled_after_quota : Bool
  pub after_quota : Account
  pub refresh_error : Option (Option ℕ)
  pub canceled_after_catalog : Bool
  pub after_catalog : Account
  pub models : List Bytes
  pub execution : Execution

-- `a.guard.Blocked || a.deleted || a.disabled`.
unfoldable pub is_blocked : Account → Bool
is_blocked a = a.guard.blocked || a.deleted || a.disabled

-- `retryAccount`: the account after the failure, and whether another one is tried.
unfoldable pub retry_account : ℕ → Account → ℕ → Account × Bool
retry_account now a status =
    let cooled = record a {
      time_refresh = 0;
      cooldown = now + minute;
      cooldown_kind = auth_failure;
    } in
    let limited = record a { cooldown = now + minute; cooldown_kind = rate_limit } in
    if nat_eq status 401 || nat_eq status 403
    then (cooled, true)
    else if nat_eq status 429
    then (limited, true)
    else (a, leb 500 status)

-- How the loop ends. `abandoned` is a request whose client is gone.
pub data Answer : Type 0 where
  abandoned : Answer
  answered : Account → Bytes → Answer
  streaming : Account → Answer
  refused : Account → ℕ → Answer
  unavailable : ℕ → Answer

-- The loop's outcome, with the accounts that were asked to execute, in order, and how `retryAccount`
-- left those that failed.
pub record Outcome : Type 0 where
  pub answer : Answer
  pub executed : List Account
  pub penalised : List Account

pub executing : Account → Outcome → Outcome
executing a o = record o { executed = a ∷ o.executed }

pub penalising : Account → Outcome → Outcome
penalising a o = record o { penalised = a ∷ o.penalised }

abbrev pub ends_with : Answer → Outcome
ends_with answer = record { answer = answer; executed = []; penalised = [] }

-- The code of the answer when no account is left.
unfoldable pub exhausted : Option (Option ℕ) → ℕ
exhausted none = 503
exhausted (some error) = status_of error

-- The engine's result for one account; `next` is the rest of the loop.
pub settle : ℕ → Account → Execution → (Option (Option ℕ) → Outcome) → Outcome
unfolding executing penalising
settle now a (responds body) next = executing a (ends_with (answered a body))
settle now a streams next = executing a (ends_with (streaming a))
settle now a (fails error) next =
    let (a', retry) = retry_account now a (status_of error) in
    let later = next (some error) in
    executing a (penalising a' (if retry then later else ends_with (refused a (status_of error))))

-- The loop over the accounts, from `lastErr`.
unfoldable pub try_accounts : ℕ → Bytes → Option (Option ℕ) → List Visit → Outcome
unfolding settle
try_accounts now model last [] = ends_with (unavailable (exhausted last))
try_accounts now model last (v ∷ visits) =
    if v.canceled || v.canceled_after_quota
    then ends_with abandoned
    else if is_blocked v.after_quota
    then try_accounts now model last visits
    else elim v.refresh_error as (λ _. Outcome) [
      | some error ↦ try_accounts now model (some error) visits
      | none ↦
          if v.canceled_after_catalog
          then ends_with abandoned
          else if is_blocked v.after_catalog || not (any (λ id. id == model) v.models)
          then try_accounts now model last visits
          else settle now v.after_catalog v.execution (λ error. try_accounts now model error visits)
    ]

-- The code under which `recordUsage` counts the request, if it does: a stream counts when it ends,
-- and one that the engine refuses does not count.
unfoldable pub counted : Bool → Answer → Option ℕ
counted stream abandoned = none
counted stream (answered a body) = some 200
counted stream (streaming a) = none
counted stream (refused a status) = if stream then none else some status
counted stream (unavailable status) = some status
